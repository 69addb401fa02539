-- ===== src/AccountPool/Fence.antt =====
-- The fence around a login: what `begin_reauth` and probes do to an account
-- (src/chatgpt_web_gateway/account_pool.py).
use turtle_chat.Prelude.{
  ℕ, ◌≡◌, refl, String, true, false, Option, none, some, List, [], ◌∷◌, arith, ℤ,
}
use turtle_chat.AccountPool.Types.{Account}
use turtle_chat.AccountPool.Health.{
  ProbeState, ready, auth_required, offline, other, apply_probe, admission_eligible, is_reauth,
}
use turtle_chat.AccountPool.Admin.Accounts.{logged_out}

-- What a worker's probe reports, and when.
pub record Probe : Type 0 where
  pub state : ProbeState
  pub http_status : Option ℕ
  pub latency_ms : ℤ
  pub name : Option String
  pub now : ℕ

-- Probes that may not end a login.
unfoldable pub probed : Account → List Probe → Account
probed account [] = account
probed account (p ∷ ps) =
    probed (apply_probe account p.state p.http_status p.latency_ms p.name false p.now) ps

apply_probe-is_reauth :
    (v : Account) (state : ProbeState) (code : Option ℕ) (latency : ℤ) (name : Option String)
    (now : ℕ)
    → is_reauth v.status ≡ true
    → is_reauth (apply_probe v state code latency name false now).status ≡ true
unfolding apply_probe
apply_probe-is_reauth v ready code latency none now h = rw h h
apply_probe-is_reauth v ready code latency (some name) now h = rw h h
apply_probe-is_reauth v auth_required code latency name now h = refl
apply_probe-is_reauth v offline code latency name now h = ground (arith, h)
apply_probe-is_reauth v other code latency name now h = ground (arith, h)

probed-is_reauth :
    (v : Account) (ps : List Probe)
    → is_reauth v.status ≡ true
    → is_reauth (probed v ps).status ≡ true
unfolding probed
probed-is_reauth v [] h = h
probed-is_reauth v (p ∷ ps) h =
    probed-is_reauth (apply_probe v p.state p.http_status p.latency_ms p.name false p.now) ps
      (apply_probe-is_reauth v p.state p.http_status p.latency_ms p.name p.now h)

is_reauth-shut : (v : Account) (t : ℕ) → is_reauth v.status ≡ true → admission_eligible v t ≡ false
unfolding admission_eligible
is_reauth-shut v t h = ground (arith, h)

readmitted :
    (w : Account) (code : Option ℕ) (latency : ℤ) (name : Option String) (now t : ℕ)
    → w.enabled ≡ true
    → admission_eligible (apply_probe w ready code latency name true now) t ≡ true
unfolding apply_probe admission_eligible
readmitted w code latency none now t e = ground (arith, e)
readmitted w code latency (some name) now t e = ground (arith, e)

-- Along any probes that may not end a login, also those that find the worker ready, and with no
-- other call in between, an account that `begin_reauth` has taken out of service is admissible at
-- no time. A probe that may end a login and finds the worker ready makes any account that is
-- enabled admissible at all times.
pub probed_fence :
    (v : Account) (now : ℕ) (ps : List Probe) (t : ℕ) (w : Account) (code : Option ℕ) (latency : ℤ)
    (name : Option String) (at t' : ℕ)
    → w.enabled ≡ true
    → (admission_eligible (probed (logged_out v now) ps) t ≡ false)
      × (admission_eligible (apply_probe w ready code latency name true at) t' ≡ true)
probed_fence v now ps t w code latency name at t' e = (
  is_reauth-shut (probed (logged_out v now) ps) t (probed-is_reauth (logged_out v now) ps refl),
  readmitted w code latency name at t' e,
)
