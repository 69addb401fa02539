-- ===== src/AccountPool/Acquire.antt =====
-- `acquire`, `renew` and `release` of `MemoryAccountStore`
-- (src/chatgpt_web_gateway/account_pool.py). Each returns the store that it leaves, also where it
-- refuses: the expiry that it makes first stays.
pub mod Candidates
pub mod Routes
pub mod Routed
pub mod Released
pub mod Probes
use turtle_chat.Prelude.{
  ℕ, zero, suc, ◌+◌, ◌-◌, max, min, String, Bool, true, false, not, ◌&&◌, ◌||◌, Option, none, some,
  ◌==◌, string_eq, List, [], ◌∷◌, ltb, leb, eqb, if◌then◌else◌, ℤ, at_least,
}
use turtle_chat.Dict.{Dict, get, put, pop, sweep, values, count}
use turtle_chat.Quota.Lane.{Lane, closed}
use turtle_chat.Quota.Lookup.{Provider, quota_lane, selection_keys}
use turtle_chat.AccountPool.Types.{
  Account, AccountGroup, PoolLease, LeaseState, Affinity, LaneBlock, AccountStore, is_active,
}
use turtle_chat.Prelude.{pair_eq}
use turtle_chat.AccountPool.Usage.{or_zero}
use turtle_chat.AccountPool.Cooldown.{lane_rate_limit_cooldown_seconds}
use turtle_chat.AccountPool.Choose.{Candidate}
use turtle_chat.AccountPool.Select.{choose_account}
use turtle_chat.AccountPool.Health.{apply_account_result, is_code}
use turtle_chat.AccountPool.Store.{
  expire, AcquireArgs, truthy, is_member, chat_is_busy, candidates, Refusal, Outcome, routed,
  refused, preferred_of, affinity_of, final_reason, route_affinity,
}

abbrev pub new_lease : AcquireArgs → String → ℕ → PoolLease
new_lease a account_id now = record {
  request_id = a.request_id;
  account_id = account_id;
  pool_id = a.pool_id;
  user_id = a.user_id;
  chat_id = a.chat_id;
  selection_key = a.selection_key;
  state = LeaseState.active;
  leased_at = now;
  expires_at = now + a.lease_seconds;
  completed_at = none;
  outcome = none;
  error_class = none;
  usage_units = 1;
}

unfoldable pub bind_chat :
    AccountStore → AcquireArgs → String → ℕ → Option String → Option String → AccountStore
bind_chat s a selected now reason none = s
bind_chat s a selected now reason (some chat_id) = record s {
  affinity =
      put s.affinity (a.pool_id, chat_id)
        (route_affinity a chat_id selected now reason (get s.affinity (a.pool_id, chat_id)));
}

-- The tail of `acquire`, once an account is selected.
unfoldable pub commit :
    AccountStore → AcquireArgs → ℕ → Account → Option String → AccountStore × Outcome
unfolding bind_chat
commit s a now source reason =
    let account : Account = record source { last_used_at = some now } in
    let leased : AccountStore = record s {
      accounts = put s.accounts source.id account;
      leases = put s.leases a.request_id (new_lease a source.id now);
    } in
    (bind_chat leased a source.id now reason (truthy a.chat_id), Outcome.routed account)

unfoldable pub refuse : AccountStore → Refusal → AccountStore × Outcome
refuse s r = (s, Outcome.refused r)

-- `self.accounts[str(selected["id"])]`: the selected candidate is one of the accounts.
unfoldable pub commit_selected :
    AccountStore → AcquireArgs → ℕ → Option String → Option Account → AccountStore × Outcome
unfolding commit refuse
commit_selected s a now reason none = refuse s Refusal.no_account
commit_selected s a now reason (some source) = commit s a now source reason

module _ (tiebreak : String → Option String → String → ℕ) where
  unfoldable pub route :
      AccountStore
      → AcquireArgs
      → ℕ
      → Option String
      → Option (Candidate × Option String)
      → AccountStore × Outcome
  unfolding commit_selected refuse
  route s a now preferred none = refuse s Refusal.no_account
  route s a now preferred (some (selected, reason)) =
      commit_selected s a now
        (final_reason a.migration_reason_hint preferred selected.account.id reason)
        (get s.accounts selected.account.id)

  unfoldable pub choose_and_route :
      AccountStore
      → AcquireArgs
      → ℕ
      → Option String
      → Option (List Candidate)
      → AccountStore × Outcome
  unfolding route refuse
  choose_and_route s a now preferred none = refuse s Refusal.invalid_profile
  choose_and_route s a now preferred (some items) =
      route s a now preferred (choose_account tiebreak a.pool_id a.chat_id preferred items)

  unfoldable pub acquire_in :
      AccountStore → AcquireArgs → ℕ → Option AccountGroup → AccountStore × Outcome
  unfolding choose_and_route refuse
  acquire_in s a now none = refuse s Refusal.pool_disabled
  acquire_in s a now (some pool) =
      if not pool.enabled
      then refuse s Refusal.pool_disabled
      else if not (is_member a.selection_key (selection_keys pool.provider))
      then refuse s Refusal.invalid_selection
      else if chat_is_busy a.pool_id (truthy a.chat_id) now s.leases
      then refuse s Refusal.chat_busy
      else choose_and_route s a now (preferred_of (affinity_of s a.pool_id (truthy a.chat_id)))
          (candidates s a now pool.provider (values s.accounts))

  unfoldable pub acquire_from :
      AccountStore → AcquireArgs → ℕ → Option PoolLease → AccountStore × Outcome
  unfolding acquire_in refuse
  acquire_from s a now (some used) = refuse s Refusal.request_used
  acquire_from s a now none = acquire_in s a now (get s.pools a.pool_id)

  unfoldable pub acquire : AccountStore → AcquireArgs → ℕ → AccountStore × Outcome
  unfolding acquire_from
  acquire s a now = let s' = expire s now in acquire_from s' a now (get s'.leases a.request_id)

abbrev pub renewable : String → PoolLease → Bool
renewable account_id lease = lease.account_id == account_id && is_active lease.state

unfoldable pub renew_lease :
    AccountStore → String → String → ℕ → ℕ → Option PoolLease → AccountStore × Bool
renew_lease s request_id account_id lease_seconds now none = (s, false)
renew_lease s request_id account_id lease_seconds now (some lease) =
    if renewable account_id lease
    then (
      record s {
        leases = put s.leases request_id (record lease { expires_at = now + lease_seconds });
      },
      true,
    )
    else (s, false)

unfoldable pub renew : AccountStore → String → String → ℕ → ℕ → AccountStore × Bool
unfolding renew_lease
renew s request_id account_id lease_seconds now =
    let s' = expire s now in
    renew_lease s' request_id account_id lease_seconds now (get s'.leases request_id)

pub record Report : Type 0 where
  pub outcome : String
  pub status_code : Option ℕ
  pub error_class : Option String
  pub cooldown_seconds : ℕ
  pub retry_after_seconds : Option ℤ
  pub usage_units : ℤ

abbrev pub final_state : String → LeaseState
final_state outcome =
    if outcome == "success" || outcome == "upstream_consumed" || outcome == "prefetched"
    then LeaseState.completed
    else if outcome == "cancelled"
    then LeaseState.cancelled
    else LeaseState.failed

unfoldable pub close_lease : PoolLease → Report → ℕ → PoolLease
close_lease lease r now = record lease {
  state = final_state r.outcome;
  completed_at = some now;
  outcome = some r.outcome;
  error_class = r.error_class;
  usage_units = min 1000 (at_least 1 r.usage_units);
}

-- `previous.get("first_rate_limit_at") or previous.get("last_rate_limit_at") or now`
abbrev pub first_limit_at : Option LaneBlock → ℕ → ℕ
first_limit_at none now = now
first_limit_at (some block) now =
    if not (eqb block.first_rate_limit_at 0)
    then block.first_rate_limit_at
    else if not (eqb block.last_rate_limit_at 0)
    then block.last_rate_limit_at
    else now

abbrev pub failures_of : Option LaneBlock → ℕ
failures_of none = 0
failures_of (some block) = block.consecutive_failures

unfoldable pub block_lane : String → String → Lane → Report → ℕ → Option LaneBlock → LaneBlock
block_lane account_id selection_key lane r now previous =
    let failures = failures_of previous + 1 in
    let first = first_limit_at previous now in
    record {
      account_id = account_id;
      selection_key = selection_key;
      blocked_until =
          now
          + lane_rate_limit_cooldown_seconds lane failures r.cooldown_seconds (now - first)
              r.retry_after_seconds;
      first_rate_limit_at = first;
      last_rate_limit_at = now;
      consecutive_failures = failures;
    }

-- The lane blocks after a release; the lane is that of the account at the lease's selection key.
unfoldable pub next_blocks :
    Dict (String × String) LaneBlock
    → String
    → String
    → Lane
    → Report
    → ℕ
    → Dict (String × String) LaneBlock
unfolding block_lane
next_blocks blocks account_id selection_key lane r now =
    if is_code 429 r.status_code
    then put blocks (account_id, selection_key)
        (block_lane account_id selection_key lane r now (get blocks (account_id, selection_key)))
    else if r.outcome == "success"
    then pop blocks (account_id, selection_key)
    else blocks

-- `quota_lane` of a stored profile, which is valid: `create_account` and `update_account`
-- normalize it. For any other the model has the closed lane.
abbrev pub lane_of : Option Lane → Lane
lane_of none = closed
lane_of (some lane) = lane

-- `str(lease.get("selection_key") or "latest:medium")`
abbrev pub key_of : PoolLease → String
key_of lease = if lease.selection_key == "" then "latest:medium" else lease.selection_key

unfoldable pub settle_account :
    AccountStore → String → PoolLease → Report → ℕ → Option Account → AccountStore
unfolding next_blocks
settle_account s account_id lease r now none = s
settle_account s account_id lease r now (some account) = record s {
  lane_blocks =
      next_blocks s.lane_blocks account_id (key_of lease)
        (lane_of (quota_lane account.quota_profile (key_of lease) account.provider)) r now;
  accounts =
      put s.accounts account_id
        (apply_account_result account r.outcome r.status_code r.error_class r.cooldown_seconds now);
}

unfoldable pub release_lease :
    AccountStore → String → String → Report → ℕ → Option PoolLease → AccountStore
unfolding settle_account close_lease
release_lease s request_id account_id r now none = s
release_lease s request_id account_id r now (some lease) =
    if renewable account_id lease
    then settle_account (record s { leases = put s.leases request_id (close_lease lease r now) })
        account_id lease r now (get s.accounts account_id)
    else s

unfoldable pub release : AccountStore → String → String → Report → ℕ → AccountStore
unfolding release_lease
release s request_id account_id r now =
    release_lease s request_id account_id r now (get s.leases request_id)
