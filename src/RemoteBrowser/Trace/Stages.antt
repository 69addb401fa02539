-- ===== src/RemoteBrowser/Trace/Stages.antt =====
-- The login of one account as a machine of three stages, which the store of links implements
-- (src/chatgpt_web_gateway/remote_browser_sessions.py).
use turtle_chat.Prelude.{
  ℕ, zero, suc, ◌+◌, ◌≤◌, ◌≡◌, refl, String, Bool, true, false, string_eq, ==_eq, ==_refl, List, [],
  ◌∷◌, arith, ℤ, any_of, to_nat, ap, Bool-cases, inl, inr,
}
use mathlib.Core.Path.{subst}
use turtle_chat.Dict.Counts.{count-put}
use turtle_chat.RemoteBrowser.Sessions.{
  session, Payload, empty_store, File, missing, invalid, stored, Texts, is_of, prune, drop_account,
  issued, expiry, issue_pending_session,
}
use turtle_chat.RemoteBrowser.Trace.{Call, issues, exchanges, consumes, revokes, step, run}
use turtle_chat.RemoteBrowser.Trace.Counts.{
  links, cookies, drop_account-none, issues_for, step-Shrinks,
}

-- An account whose login is closed, has an unused link, or has an unused cookie.
pub data Stage : Type 0 where
  outside invited connected : Stage

abbrev pub stage_from : ℕ → ℕ → Stage
stage_from zero zero = outside
stage_from zero (suc c) = connected
stage_from (suc l) c = invited

abbrev pub stage_of : String → File → Stage
stage_of account_id file = stage_from (links account_id file) (cookies account_id file)

-- What a call may do to the login of an account. It opens only by a call that issues a link of
-- the account, and connects only from an unused link.
pub data Moves (is_issued : Bool) : Stage → Stage → Type 0 where
  stays : {s : Stage} → Moves is_issued s s
  closes : {s : Stage} → Moves is_issued s outside
  connects : Moves is_issued invited connected
  invites : {s : Stage} → is_issued ≡ true → Moves is_issued s invited

Moves-stage_from :
    (b : Bool) (l c l' c' : ℕ)
    → (b ≡ false → (l' ≤ l) × (l' + c' ≤ l + c))
    → (b ≡ true → c' ≤ l + c)
    → Moves b (stage_from l c) (stage_from l' c')
Moves-stage_from b l c zero zero h k = closes
Moves-stage_from true l c (suc l') c' h k = invites refl
Moves-stage_from false zero c (suc l') c' h k = absurd (omega (arith, (h refl).0))
Moves-stage_from false (suc l) c (suc l') c' h k = stays
Moves-stage_from b (suc l) c zero (suc c') h k = connects
Moves-stage_from b zero (suc c) zero (suc c') h k = stays
Moves-stage_from false zero zero zero (suc c') h k = absurd (omega (arith, (h refl).1))
Moves-stage_from true zero zero zero (suc c') h k = absurd (omega (arith, k refl))

issued-counts :
    (texts : Texts) (payload : Payload) (a raw : String) (e : ℕ)
    → (links a (stored (issued texts payload a e raw)) ≤ 1)
      × (cookies a (stored (issued texts payload a e raw)) ≡ 0)
issued-counts texts payload a raw e =
    let z = drop_account-none a payload in
    let c = count-put (is_of a) (drop_account payload a).pending (texts.digest raw) (session a e) in
    let o = ap to_nat (==_refl a) in (omega (arith, c, z.0, o), z.1)

-- A call that issues a link of the account.
issue-counts :
    (texts : Texts) (a : String) (file : File) (ttl : ℤ) (raw : String) (now clock : ℕ)
    → (links a (issue_pending_session texts file a ttl raw now clock).0 ≤ 1)
      × (cookies a (issue_pending_session texts file a ttl raw now clock).0 ≡ 0)
unfolding issue_pending_session
issue-counts texts a missing ttl raw now clock =
    issued-counts texts (prune empty_store clock) a raw (expiry now ttl)
issue-counts texts a invalid ttl raw now clock = (omega arith, refl)
issue-counts texts a (stored payload) ttl raw now clock =
    issued-counts texts (prune payload clock) a raw (expiry now ttl)

step-issued :
    (texts : Texts) (a : String) (file : File) (call : Call)
    → issues_for a call ≡ true
    → (links a (step texts file call) ≤ 1) × (cookies a (step texts file call) ≡ 0)
unfolding step
step-issued texts a file (issues account ttl raw now clock) h =
    subst
      (λ v.
        (links v (issue_pending_session texts file account ttl raw now clock).0 ≤ 1)
        × (cookies v (issue_pending_session texts file account ttl raw now clock).0 ≡ 0))
      (==_eq account a h) (issue-counts texts account file ttl raw now clock)
step-issued texts a file (exchanges token connection now clock) h = cc
step-issued texts a file (consumes cookie now clock) h = cc
step-issued texts a file (revokes account clock) h = cc

-- Every call moves the login of every account as the machine of stages allows.
pub step-Moves :
    (texts : Texts) (file : File) (call : Call) (a : String)
    → Moves (issues_for a call) (stage_of a file) (stage_of a (step texts file call))
step-Moves texts file call a =
    Moves-stage_from (issues_for a call) (links a file) (cookies a file)
      (links a (step texts file call)) (cookies a (step texts file call))
      (step-Shrinks texts a file call)
      (λ y. let i = step-issued texts a file call y in omega (arith, i.1))

abbrev pub IsSingle : File → Type 0
IsSingle file = (a : String) → links a file + cookies a file ≤ 1

step-IsSingle :
    (texts : Texts) (file : File) (call : Call) → IsSingle file → IsSingle (step texts file call)
step-IsSingle texts file call w a = elim (Bool-cases (issues_for a call)) [
  | inl y ↦ let i = step-issued texts a file call y in omega (arith, i.0, i.1)
  | inr n ↦ let s = step-Shrinks texts a file call n in omega (arith, s.1, w a)
]

-- Along any calls, if no account had more than one unused link or cookie, links and cookies taken
-- together, then none has more.
pub run-IsSingle :
    (texts : Texts) (file : File) (calls : List Call)
    → IsSingle file
    → IsSingle (run texts file calls)
unfolding run
run-IsSingle texts file [] w = w
run-IsSingle texts file (call ∷ calls) w =
    run-IsSingle texts (step texts file call) calls (step-IsSingle texts file call w)

-- A login that is closed stays closed until a link is issued.
pub run-closed :
    (texts : Texts) (a : String) (file : File) (calls : List Call)
    → any_of (issues_for a) calls ≡ false
    → links a file + cookies a file ≡ 0
    → links a (run texts file calls) + cookies a (run texts file calls) ≡ 0
unfolding run any_of
run-closed texts a file [] n z = z
run-closed texts a file (call ∷ calls) n z =
    let s = step-Shrinks texts a file call (ground (arith, n)) in
    run-closed texts a (step texts file call) calls (ground (arith, n)) (omega (arith, s.1, z))
