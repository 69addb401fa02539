-- ===== src/AccountPool/Admin/Accounts.antt =====
-- `create_account`, `update_account`, `begin_reauth` and `mark_probe` of `MemoryAccountStore`
-- (src/chatgpt_web_gateway/account_pool.py).
use turtle_chat.Prelude.{
  ℕ, String, Bool, true, false, not, ◌&&◌, ◌||◌, Option, none, some, ◌==◌, string_eq, eqb,
  if◌then◌else◌, any_of, ℤ,
}
use turtle_chat.Dict.{get, put, values}
use turtle_chat.Quota.Lookup.{Provider, gpt, normalize_quota_profile}
use turtle_chat.AccountPool.Types.{
  Account, AccountGroup, AccountStatus, SessionState, HealthState, AccountStore,
}
use turtle_chat.AccountPool.Health.{ProbeState, apply_probe, is_valid, is_healthy}
use turtle_chat.AccountPool.Store.{expire, active_on, no_key}

pub record AccountForm : Type 0 where
  pub name : String
  pub worker_endpoint : String
  pub health_path : Option String
  pub max_concurrency : ℕ
  pub priority : ℤ
  pub quota_profile : String

-- `_new_account`, once the profile is normalized; an account that the deployment manages is ready
-- at once.
unfoldable pub new_account : String → String → Provider → AccountForm → String → Bool → ℕ → Account
new_account account_id pool_id provider form profile deployment_managed now = record {
  id = account_id;
  pool_id = pool_id;
  provider = provider;
  name = form.name;
  worker_endpoint = form.worker_endpoint;
  health_path = form.health_path;
  enabled = deployment_managed;
  status = if deployment_managed then AccountStatus.ready else AccountStatus.disabled;
  session_state = if deployment_managed then SessionState.valid else SessionState.missing;
  health_status = HealthState.unknown;
  max_concurrency = form.max_concurrency;
  priority = form.priority;
  quota_profile = profile;
  last_used_at = none;
  last_success_at = none;
  last_health_at = none;
  last_error_class = none;
  last_probe_latency_ms = none;
  upstream_display_name = none;
  upstream_identity_updated_at = none;
  consecutive_failures = 0;
  cooldown_until = none;
  deployment_managed = deployment_managed;
  created_at = now;
  updated_at = now;
}

abbrev pub add_account :
    AccountStore
    → String
    → String
    → AccountForm
    → ℕ
    → Provider
    → Option String
    → Option AccountStore
add_account s account_id pool_id form now provider none = none
add_account s account_id pool_id form now provider (some profile) = some (record s {
  accounts =
      put s.accounts account_id (new_account account_id pool_id provider form profile false now);
})

abbrev pub create_in :
    AccountStore → String → String → AccountForm → ℕ → Option AccountGroup → Option AccountStore
create_in s account_id pool_id form now none = none
create_in s account_id pool_id form now (some pool) =
    if any_of (λ item. item.worker_endpoint == form.worker_endpoint) (values s.accounts)
    then none
    else if not (no_key (get s.accounts account_id))
    then none
    else add_account s account_id pool_id form now pool.provider
        (normalize_quota_profile form.quota_profile pool.provider)

-- The identifier is the one given, or the new one.
unfoldable pub create_account :
    AccountStore → String → String → AccountForm → ℕ → Option AccountStore
unfolding new_account
create_account s account_id pool_id form now =
    create_in s account_id pool_id form now (get s.pools pool_id)

abbrev pub works_elsewhere : String → String → Account → Bool
works_elsewhere account_id endpoint item =
    not (item.id == account_id) && item.worker_endpoint == endpoint

abbrev same_path : Option String → Option String → Bool
same_path none none = true
same_path (some a) (some b) = a == b
same_path _ _ = false

abbrev pub endpoint_changed : Account → AccountForm → Bool
endpoint_changed value form =
    not (value.worker_endpoint == form.worker_endpoint)
    || not (same_path value.health_path form.health_path)

unfoldable pub revised : Account → AccountForm → String → Bool → ℕ → Account
revised value form profile enabled now =
    let next : Account = record value {
      name = form.name;
      worker_endpoint = form.worker_endpoint;
      health_path = form.health_path;
      max_concurrency = form.max_concurrency;
      priority = form.priority;
      quota_profile = profile;
      enabled = enabled;
      updated_at = now;
    } in
    if endpoint_changed value form
    then record next {
      status = AccountStatus.disabled;
      session_state = SessionState.unknown;
      health_status = HealthState.unknown;
      last_error_class = none;
      consecutive_failures = 0;
      cooldown_until = none;
    }
    else if not enabled
    then record next { status = AccountStatus.disabled }
    else if is_valid value.session_state && is_healthy value.health_status
    then record next { status = AccountStatus.ready }
    else next

-- A pool that is gone counts as one of the default provider.
abbrev pub provider_of : Option AccountGroup → Provider
provider_of none = gpt
provider_of (some pool) = pool.provider

abbrev pub revise_account :
    AccountStore → Account → AccountForm → Bool → ℕ → String → Option String → Option AccountStore
revise_account s value form enabled now account_id none = none
revise_account s value form enabled now account_id (some profile) =
    some
      (record s { accounts = put s.accounts account_id (revised value form profile enabled now) })

abbrev pub update_found :
    AccountStore → String → AccountForm → Bool → ℕ → Option Account → Option AccountStore
update_found s account_id form enabled now none = none
update_found s account_id form enabled now (some value) =
    if any_of (works_elsewhere account_id form.worker_endpoint) (values s.accounts)
    then none
    else revise_account s value form enabled now account_id
        (normalize_quota_profile form.quota_profile (provider_of (get s.pools value.pool_id)))

unfoldable pub update_account : AccountStore → String → AccountForm → Bool → ℕ → Option AccountStore
unfolding revised
update_account s account_id form enabled now =
    update_found s account_id form enabled now (get s.accounts account_id)

abbrev pub logged_out : Account → ℕ → Account
logged_out account now = record account {
  status = AccountStatus.reauth_required;
  session_state = SessionState.expired;
  health_status = HealthState.unhealthy;
  last_error_class = some "manual_reauth";
  cooldown_until = none;
  updated_at = now;
}

abbrev pub begin_with : AccountStore → String → ℕ → Option Account → AccountStore × Bool
begin_with s account_id now none = (s, false)
begin_with s account_id now (some account) =
    if eqb (active_on account_id s.leases) 0
    then (record s { accounts = put s.accounts account_id (logged_out account now) }, true)
    else (s, false)

-- The Boolean is false where the conflict is raised; the expiry stays.
unfoldable pub begin_reauth : AccountStore → String → ℕ → AccountStore × Bool
begin_reauth s account_id now =
    let s' = expire s now in begin_with s' account_id now (get s'.accounts account_id)

abbrev pub probe_found :
    AccountStore
    → String
    → ProbeState
    → Option ℕ
    → ℤ
    → Option String
    → Bool
    → ℕ
    → Option Account
    → Option AccountStore
probe_found s account_id state http_status latency_ms name allow_reauth now none = none
probe_found s account_id state http_status latency_ms name allow_reauth now (some account) =
    some (record s {
      accounts =
          put s.accounts account_id
            (apply_probe account state http_status latency_ms name allow_reauth now);
    })

unfoldable pub mark_probe :
    AccountStore
    → String
    → ProbeState
    → Option ℕ
    → ℤ
    → Option String
    → Bool
    → ℕ
    → Option AccountStore
mark_probe s account_id state http_status latency_ms name allow_reauth now =
    probe_found s account_id state http_status latency_ms name allow_reauth now
      (get s.accounts account_id)
