-- ===== src/AccountPool/Store.antt =====
-- `MemoryAccountStore`: expiry, `acquire`, `renew` and `release`
-- (src/chatgpt_web_gateway/account_pool.py). One reading of the clock a call is an argument.

use turtle_chat.Prelude.{
  ℕ, ◌+◌, String, Bool, true, false, not, ◌&&◌, ◌||◌, Option, none, some, ◌==◌, string_eq, List, [],
  ◌∷◌, ltb, leb, eqb, if◌then◌else◌, any_of,
}
use turtle_chat.Dict.{Dict, get, sweep, values, count}
use turtle_chat.Quota.Lane.{Lane}
use turtle_chat.Quota.Lookup.{Provider, quota_lane}
use turtle_chat.AccountPool.Types.{
  Account, AccountStatus, HealthState, PoolLease, LeaseState, Affinity, LaneBlock, AccountStore,
  is_active,
}
use turtle_chat.Prelude.{pair_eq}
use turtle_chat.AccountPool.Usage.{quota_usage, lane_snapshot, or_zero}
use turtle_chat.AccountPool.Choose.{Candidate}
use turtle_chat.AccountPool.Health.{admission_eligible, is_cooldown, is_valid}

abbrev pub no_key {ℓ} : {A : Type ℓ} → Option A → Bool
no_key none = true
no_key (some a) = false

unfoldable pub expire_lease : ℕ → PoolLease → PoolLease
expire_lease now lease =
    if is_active lease.state && leb lease.expires_at now
    then record lease {
      state = LeaseState.expired;
      completed_at = some now;
      outcome = some "lease_expired";
    }
    else lease

unfoldable pub expire_account : ℕ → Account → Account
expire_account now account =
    if is_cooldown account.status && leb (or_zero account.cooldown_until) now
    then record account {
      status =
          if account.enabled && is_valid account.session_state
          then AccountStatus.ready
          else AccountStatus.disabled;
      health_status = HealthState.unknown;
      cooldown_until = none;
      updated_at = now;
    }
    else account

unfoldable pub expire : AccountStore → ℕ → AccountStore
expire s now = record s {
  leases = sweep (λ lease. some (expire_lease now lease)) s.leases;
  accounts = sweep (λ account. some (expire_account now account)) s.accounts;
}

abbrev pub runs_on : String → PoolLease → Bool
runs_on account_id lease = lease.account_id == account_id && is_active lease.state

unfoldable pub active_on : String → Dict String PoolLease → ℕ
active_on account_id leases = count (runs_on account_id) leases

pub record AcquireArgs : Type 0 where
  pub pool_id : String
  pub request_id : String
  pub user_id : Option String
  pub chat_id : Option String
  pub lease_seconds : ℕ
  pub selection_key : String
  pub excluded_account_ids : List String
  pub required_quota_profiles : List String
  pub required_account_id : Option String
  pub migration_reason_hint : Option String

-- `if chat_id`: None and the empty text are false.
abbrev pub truthy : Option String → Option String
truthy none = none
truthy (some text) = if text == "" then none else some text

abbrev pub is_member : String → List String → Bool
is_member text items = any_of (λ item. item == text) items

abbrev pub same_text : Option String → String → Bool
same_text none text = false
same_text (some other) text = other == text

abbrev pub serves_chat : String → String → ℕ → PoolLease → Bool
serves_chat pool_id chat_id now lease =
    lease.pool_id == pool_id
    && same_text lease.chat_id chat_id
    && is_active lease.state
    && ltb now lease.expires_at

abbrev pub chat_is_busy : String → Option String → ℕ → Dict String PoolLease → Bool
chat_is_busy pool_id none now leases = false
chat_is_busy pool_id (some chat_id) now leases =
    any_of (serves_chat pool_id chat_id now) (values leases)

abbrev pub meets_account : Option String → String → Bool
meets_account none id = true
meets_account (some required) id = id == required

abbrev pub meets_profiles : List String → String → Bool
meets_profiles [] profile = true
meets_profiles (p ∷ ps) profile = is_member profile (p ∷ ps)

unfoldable pub base_eligible : AcquireArgs → ℕ → Account → Bool
base_eligible a now account =
    not (is_member account.id a.excluded_account_ids)
    && meets_account a.required_account_id account.id
    && meets_profiles a.required_quota_profiles account.quota_profile
    && admission_eligible account now

abbrev pub blocked_until_of : Option LaneBlock → Option ℕ
blocked_until_of none = none
blocked_until_of (some block) = some block.blocked_until

-- The candidate for an account, given its lane; `none` is the ValueError of `quota_lane`.
unfoldable pub candidate_at :
    AccountStore → AcquireArgs → ℕ → Provider → Account → Option Lane → Option Candidate
unfolding base_eligible active_on
candidate_at s a now provider account none = none
candidate_at s a now provider account (some lane) = some (record {
  account = record account { provider = provider };
  active = active_on account.id s.leases;
  base_eligible = base_eligible a now account;
  selected_lane =
      lane_snapshot lane
        (quota_usage (values s.leases) account.id a.selection_key lane.window_seconds now)
        (blocked_until_of (get s.lane_blocks (account.id, a.selection_key)));
})

abbrev pub cons_both : Option Candidate → Option (List Candidate) → Option (List Candidate)
cons_both none rest = none
cons_both (some item) none = none
cons_both (some item) (some items) = some (item ∷ items)

unfoldable pub candidates :
    AccountStore → AcquireArgs → ℕ → Provider → List Account → Option (List Candidate)
unfolding candidate_at
candidates s a now provider [] = some []
candidates s a now provider (account ∷ rest) =
    let items = candidates s a now provider rest in
    if account.pool_id == a.pool_id
    then cons_both
        (candidate_at s a now provider account
          (quota_lane account.quota_profile a.selection_key provider))
        items
    else items

pub data Refusal : Type 0 where
  request_used pool_disabled invalid_selection chat_busy no_account invalid_profile : Refusal

pub data Outcome : Type 0 where
  routed : Account → Outcome
  refused : Refusal → Outcome

abbrev pub preferred_of : Option Affinity → Option String
preferred_of none = none
preferred_of (some affinity) = some affinity.preferred_account_id

abbrev pub affinity_of : AccountStore → String → Option String → Option Affinity
affinity_of s pool_id none = none
affinity_of s pool_id (some chat_id) = get s.affinity (pool_id, chat_id)

-- The hint replaces the reason where a bound chat moves.
abbrev pub final_reason : Option String → Option String → String → Option String → Option String
final_reason (some hint) (some preferred) selected reason =
    if hint == "" || preferred == "" || selected == preferred then reason else some hint
final_reason _ _ selected reason = reason

unfoldable pub route_affinity :
    AcquireArgs → String → String → ℕ → Option String → Option Affinity → Affinity
route_affinity a chat_id selected now reason none = record {
  pool_id = a.pool_id;
  chat_id = chat_id;
  user_id = a.user_id;
  preferred_account_id = selected;
  created_at = now;
  updated_at = now;
  last_routed_at = now;
  migration_count = 0;
  last_migrated_at = none;
  last_migration_reason = none;
}
route_affinity a chat_id selected now reason (some existing) =
    let migrated = not (existing.preferred_account_id == selected) in
    record {
      pool_id = a.pool_id;
      chat_id = chat_id;
      user_id = a.user_id;
      preferred_account_id = selected;
      created_at = if eqb existing.created_at 0 then now else existing.created_at;
      updated_at = now;
      last_routed_at = now;
      migration_count = existing.migration_count + (if migrated then 1 else 0);
      last_migrated_at = if migrated then some now else existing.last_migrated_at;
      last_migration_reason = if migrated then reason else existing.last_migration_reason;
    }
