-- ===== src/AccountPool/Health.antt =====
-- The state of an account: `_admission_eligible`, `_apply_probe` and `_apply_account_result`
-- (src/chatgpt_web_gateway/account_pool.py).
use turtle_chat.Prelude.{
  ℕ, ◌+◌, ◌*◌, ◌^◌, min, String, Bool, true, false, not, ◌&&◌, ◌||◌, Option, none, some, ◌==◌,
  string_eq, ltb, leb, eqb, if◌then◌else◌, ℤ, at_least,
}
use turtle_chat.AccountPool.Types.{Account, AccountStatus, SessionState, HealthState}

abbrev pub is_status_ready : AccountStatus → Bool
is_status_ready AccountStatus.ready = true
is_status_ready _ = false

abbrev pub is_cooldown : AccountStatus → Bool
is_cooldown AccountStatus.cooldown = true
is_cooldown _ = false

abbrev pub is_reauth : AccountStatus → Bool
is_reauth AccountStatus.reauth_required = true
is_reauth _ = false

abbrev pub is_valid : SessionState → Bool
is_valid SessionState.valid = true
is_valid _ = false

abbrev pub is_healthy : HealthState → Bool
is_healthy HealthState.healthy = true
is_healthy _ = false

-- health_status in {"unknown", "healthy"}
abbrev pub is_fit : HealthState → Bool
is_fit HealthState.unknown = true
is_fit HealthState.healthy = true
is_fit _ = false

-- `not cooldown_until or cooldown_until <= now`
abbrev pub is_cool : Option ℕ → ℕ → Bool
is_cool none now = true
is_cool (some t) now = leb t now

unfoldable pub admission_eligible : Account → ℕ → Bool
admission_eligible account now =
    account.enabled
    && is_status_ready account.status
    && is_valid account.session_state
    && is_fit account.health_status
    && is_cool account.cooldown_until now

abbrev ready_or_disabled : Account → AccountStatus
ready_or_disabled account = if account.enabled then AccountStatus.ready else AccountStatus.disabled

abbrev or_upstream : Option String → String
or_upstream none = "upstream"
or_upstream (some text) = if text == "" then "upstream" else text

abbrev pub is_code : ℕ → Option ℕ → Bool
is_code code none = false
is_code code (some other) = eqb other code

-- outcome in {"success", "cancelled", "prefetched", "prefetch_failed"}
abbrev pub is_harmless : String → Bool
is_harmless outcome =
    outcome == "success"
    || outcome == "cancelled"
    || outcome == "prefetched"
    || outcome == "prefetch_failed"

succeed : Account → ℕ → Account
succeed account now = record account {
  status = ready_or_disabled account;
  session_state = SessionState.valid;
  health_status = HealthState.healthy;
  last_success_at = some now;
  last_error_class = none;
  consecutive_failures = 0;
  cooldown_until = none;
  updated_at = now;
}

fail : Account → Option ℕ → Option String → ℕ → ℕ → Account
fail account status_code error_class cooldown_seconds now =
    let failures = account.consecutive_failures + 1 in
    let failed : Account = record account {
      consecutive_failures = failures;
      last_error_class = some (or_upstream error_class);
      updated_at = now;
    } in
    if is_code 401 status_code || is_code 403 status_code
    then record failed {
      status = AccountStatus.reauth_required;
      session_state = SessionState.expired;
      health_status = HealthState.unhealthy;
    }
    else if is_code 429 status_code
    then record failed {
      status = ready_or_disabled account;
      session_state = SessionState.valid;
      health_status = HealthState.healthy;
      cooldown_until = none;
    }
    else record failed {
      status = if account.enabled then AccountStatus.cooldown else AccountStatus.disabled;
      health_status = if leb 3 failures then HealthState.unhealthy else HealthState.degraded;
      cooldown_until = some (now + min cooldown_seconds (15 * 2 ^ min failures 4));
    }

unfoldable pub apply_account_result : Account → String → Option ℕ → Option String → ℕ → ℕ → Account
unfolding succeed fail
apply_account_result account outcome status_code error_class cooldown_seconds now =
    if is_harmless outcome
    then if outcome == "success" then succeed account now else record account { updated_at = now }
    else fail account status_code error_class cooldown_seconds now

-- The states that a probe reports.
pub data ProbeState : Type 0 where
  ready auth_required offline other : ProbeState

abbrev named : ProbeState → Option String → Account → ℕ → Account
named ProbeState.ready (some name) account now = record account {
  upstream_display_name = some name;
  upstream_identity_updated_at = some now;
}
named _ name account now = account

probe_ready : Account → Bool → ℕ → Account
probe_ready account allow_reauth now =
    if is_reauth account.status && not allow_reauth
    then record account {
      health_status = HealthState.healthy;
      last_success_at = some now;
      consecutive_failures = 0;
      cooldown_until = none;
      updated_at = now;
    }
    else record account {
      status = ready_or_disabled account;
      session_state = SessionState.valid;
      health_status = HealthState.healthy;
      last_success_at = some now;
      last_error_class = none;
      consecutive_failures = 0;
      cooldown_until = none;
      updated_at = now;
    }

probe_rejected : Account → ℕ → Account
probe_rejected account now = record account {
  status = AccountStatus.reauth_required;
  session_state = SessionState.expired;
  health_status = HealthState.unhealthy;
  last_error_class = some "authentication";
  updated_at = now;
}

probe_offline : Account → ℕ → Account
probe_offline account now = record account {
  health_status = HealthState.unhealthy;
  last_error_class = some "offline";
  consecutive_failures = account.consecutive_failures + 1;
  updated_at = now;
}

-- Fewer than three failures in a row do not take a healthy account out of service.
probe_degraded : Account → ℕ → Account
probe_degraded account now =
    let failures = account.consecutive_failures + 1 in
    let keep_scheduling =
      account.enabled
      && is_status_ready account.status
      && is_valid account.session_state
      && is_healthy account.health_status
      && ltb failures 3 in
    record account {
      health_status = if keep_scheduling then HealthState.healthy else HealthState.degraded;
      last_error_class = some "health_probe";
      consecutive_failures = failures;
      updated_at = now;
    }

abbrev is_probe_ready : ProbeState → Bool
is_probe_ready ProbeState.ready = true
is_probe_ready _ = false

abbrev is_auth_required : ProbeState → Bool
is_auth_required ProbeState.auth_required = true
is_auth_required _ = false

abbrev is_offline : ProbeState → Bool
is_offline ProbeState.offline = true
is_offline _ = false

-- The name is the one that `_safe_upstream_display_name` lets through.
unfoldable pub apply_probe :
    Account → ProbeState → Option ℕ → ℤ → Option String → Bool → ℕ → Account
unfolding probe_ready probe_rejected probe_offline probe_degraded
apply_probe account state http_status latency_ms name allow_reauth now =
    let probed : Account =
      named state name
        (record account {
          last_health_at = some now;
          last_probe_latency_ms = some (at_least 0 latency_ms);
        })
        now in
    if is_probe_ready state
    then probe_ready probed allow_reauth now
    else if is_auth_required state || is_code 401 http_status || is_code 403 http_status
    then probe_rejected probed now
    else if is_offline state
    then probe_offline probed now
    else probe_degraded probed now
