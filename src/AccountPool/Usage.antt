-- ===== src/AccountPool/Usage.antt =====
-- `_quota_usage` and `_lane_snapshot` (src/chatgpt_web_gateway/account_pool.py).
pub mod Coherence
use turtle_chat.Prelude.{
  ℕ, zero, suc, ◌+◌, ◌-◌, max, min, String, Bool, true, false, not, ◌&&◌, ◌||◌, Option, none, some,
  ◌==◌, string_eq, List, [], ◌∷◌, ltb, leb, eqb, if◌then◌else◌, select, sum_of,
}
use turtle_chat.Quota.Lane.{Lane, LaneSource}
use turtle_chat.AccountPool.Types.{PoolLease, is_active, is_completed}

abbrev pub or_zero : Option ℕ → ℕ
or_zero none = 0
or_zero (some n) = n

abbrev pub fairness_window_seconds : ℕ
fairness_window_seconds = 10800

-- outcome in {"success", "upstream_consumed"}
abbrev counts_as_used : Option String → Bool
counts_as_used none = false
counts_as_used (some outcome) = outcome == "success" || outcome == "upstream_consumed"

abbrev window_or_default : ℕ → ℕ
window_or_default zero = fairness_window_seconds
window_or_default (suc n) = suc n

-- `completed_at > now - window`, without the subtraction.
abbrev is_success : String → String → ℕ → ℕ → PoolLease → Bool
is_success account_id selection_key window now item =
    item.account_id == account_id
    && item.selection_key == selection_key
    && is_completed item.state
    && counts_as_used item.outcome
    && ltb now (or_zero item.completed_at + window)

abbrev is_running : String → String → ℕ → PoolLease → Bool
is_running account_id selection_key now item =
    item.account_id == account_id
    && item.selection_key == selection_key
    && is_active item.state
    && ltb now item.expires_at

abbrev units : PoolLease → ℕ
units item = max 1 item.usage_units

unfoldable pub oldest : List PoolLease → Option ℕ
oldest [] = none
oldest (item ∷ rest) = elim (oldest rest) [
  | none ↦ some (or_zero item.completed_at)
  | some t ↦ some (min (or_zero item.completed_at) t)
]

pub record QuotaUsage : Type 0 where
  pub used_count : ℕ
  pub active_count : ℕ
  pub oldest_success_at : Option ℕ

unfoldable pub quota_usage : List PoolLease → String → String → ℕ → ℕ → QuotaUsage
unfolding oldest
quota_usage leases account_id selection_key window_seconds now =
    let successes =
      select (is_success account_id selection_key (window_or_default window_seconds) now) leases in
    record {
      used_count = sum_of units successes;
      active_count = sum_of units (select (is_running account_id selection_key now) leases);
      oldest_success_at = oldest successes;
    }

pub data LaneState : Type 0 where
  disabled cooldown exhausted reserve dynamic untracked available : LaneState

pub record LaneSnapshot : Type 0 where
  pub lane : Lane
  pub used_count : ℕ
  pub active_count : ℕ
  pub remaining_count : Option ℕ
  pub safe_remaining_count : Option ℕ
  pub reset_at : Option ℕ
  pub blocked_until : Option ℕ
  pub state : LaneState
  pub admission_available : Bool
  pub is_available : Bool
  -- a fraction, its denominator not zero
  pub pressure : Option (ℕ × ℕ)

abbrev pub is_some {ℓ} : {A : Type ℓ} → Option A → Bool
is_some none = false
is_some (some a) = true

abbrev pub is_dynamic : LaneSource → Bool
is_dynamic LaneSource.official_dynamic = true
is_dynamic LaneSource.official_multiplier = true
is_dynamic _ = false

-- `max(0, budget - used - active)`: subtraction on ℕ stops at 0.
abbrev pub remaining_of : Option ℕ → ℕ → ℕ → Option ℕ
remaining_of none used running = none
remaining_of (some budget) used running = some (budget - used - running)

abbrev safe_of : Option ℕ → ℕ → Option ℕ
safe_of none kept = none
safe_of (some remaining) kept = some (remaining - kept)

-- `remaining == 0`, where None is not 0.
abbrev pub is_spent : Option ℕ → Bool
is_spent none = false
is_spent (some n) = eqb n 0

abbrev within_reserve : Option ℕ → ℕ → Bool
within_reserve none kept = false
within_reserve (some n) kept = leb n kept

-- The truth value of `oldest_success_at`: None and 0 are false.
abbrev reset_of : ℕ → Option ℕ → Option ℕ
reset_of zero t = none
reset_of (suc window) none = none
reset_of (suc window) (some zero) = none
reset_of (suc window) (some (suc t)) = some (suc t + suc window)

unfoldable pub lane_state : Lane → Bool → Option ℕ → LaneState
lane_state lane blocked remaining =
    if not lane.enabled
    then LaneState.disabled
    else if blocked
    then LaneState.cooldown
    else if is_spent remaining
    then LaneState.exhausted
    else if within_reserve remaining lane.reserve_count
    then LaneState.reserve
    else elim lane.dispatch_budget_count [
      | none ↦ if is_dynamic lane.source then LaneState.dynamic else LaneState.untracked
      | some budget ↦ LaneState.available
    ]

abbrev pub used_below : ℕ → Option ℕ → Bool
used_below used none = true
used_below used (some budget) = ltb used budget

abbrev pressure_of : Option ℕ → ℕ → Option (ℕ × ℕ)
pressure_of none load = none
pressure_of (some budget) load = some (load, max 1 budget)

unfoldable pub lane_snapshot : Lane → QuotaUsage → Option ℕ → LaneSnapshot
unfolding lane_state
lane_snapshot lane usage blocked_until =
    let remaining = remaining_of lane.dispatch_budget_count usage.used_count usage.active_count in
    let blocked = is_some blocked_until in
    record {
      lane = lane;
      used_count = usage.used_count;
      active_count = usage.active_count;
      remaining_count = remaining;
      safe_remaining_count = safe_of remaining lane.reserve_count;
      reset_at = reset_of lane.window_seconds usage.oldest_success_at;
      blocked_until = blocked_until;
      state = lane_state lane blocked remaining;
      admission_available =
          lane.enabled && not blocked && used_below usage.used_count lane.dispatch_budget_count;
      is_available = lane.enabled && not blocked && not (is_spent remaining);
      pressure = pressure_of lane.dispatch_budget_count (usage.used_count + usage.active_count);
    }
