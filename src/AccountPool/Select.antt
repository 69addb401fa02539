-- ===== src/AccountPool/Select.antt =====
-- `_choose_account` (src/chatgpt_web_gateway/account_pool.py), over the ranks of `Choose`.
pub mod Choices
pub mod Service
use turtle_chat.Prelude.{
  ℕ, zero, suc, ◌+◌, ◌-◌, ◌^◌, max, min, String, Bool, true, false, not, ◌&&◌, ◌||◌, Option, none,
  some, ◌==◌, string_eq, List, [], ◌∷◌, ltb, leb, eqb, if◌then◌else◌, select, any_of,
}
use turtle_chat.AccountPool.Types.{Account}
use turtle_chat.AccountPool.Usage.{LaneSnapshot, LaneState, or_zero}
use turtle_chat.AccountPool.Choose.{
  Candidate, Part, ratio, negated, text, whole, rank_lt, least_of, soft_concurrency_limit,
  routing_capability_width, routing_plan_rank,
}

-- `int(account.get("max_concurrency") or 1)`
abbrev pub capacity_of : Account → ℕ
capacity_of account = max 1 account.max_concurrency

abbrev pub is_ready : Candidate → Bool
is_ready item =
    item.base_eligible
    && ltb item.active (capacity_of item.account)
    && item.selected_lane.is_available

abbrev pub is_reserve : LaneState → Bool
is_reserve LaneState.reserve = true
is_reserve _ = false

abbrev is_healthy_budget : LaneState → Bool
is_healthy_budget LaneState.available = true
is_healthy_budget LaneState.dynamic = true
is_healthy_budget LaneState.untracked = true
is_healthy_budget _ = false

abbrev blocked_reason : LaneState → String
blocked_reason LaneState.disabled = "quota_disabled"
blocked_reason LaneState.cooldown = "quota_cooldown"
blocked_reason _ = "quota_exhausted"

-- next((item for item in items if p(item)), None)
module _ {A : Type 0} where
  unfoldable pub find_first : (A → Bool) → List A → Option A
  find_first p [] = none
  find_first p (x ∷ xs) = if p x then some x else find_first p xs

abbrev pub has_id : Option String → Candidate → Bool
has_id none item = false
has_id (some id) item = item.account.id == id

abbrev pub is_other : Candidate → Candidate → Bool
is_other preferred item = not (item.account.id == preferred.account.id)

-- What is known before the ranks: keep the bound account, refuse, or choose among some.
pub data Plan : Type 0 where
  keep : Candidate → Plan
  refuse : Plan
  among : List Candidate → Option String → Plan

abbrev overflow_plan : List Candidate → Plan
overflow_plan [] = refuse
overflow_plan (x ∷ xs) = among (x ∷ xs) (some "concurrency_overflow")

abbrev reserve_plan : Candidate → List Candidate → Plan
reserve_plan preferred [] = keep preferred
reserve_plan preferred (x ∷ xs) = among (x ∷ xs) (some "quota_reserve")

abbrev is_healthier : Candidate → Candidate → Bool
is_healthier preferred item =
    is_other preferred item
    && is_reserve preferred.selected_lane.state
    && is_healthy_budget item.selected_lane.state

abbrev bound_plan : Candidate → List Candidate → Plan
bound_plan preferred ready =
    if preferred.selected_lane.is_available
    then if leb (capacity_of preferred.account) preferred.active
      then overflow_plan (select (is_other preferred) ready)
      else reserve_plan preferred (select (is_healthier preferred) ready)
    else among ready (some (blocked_reason preferred.selected_lane.state))

-- `elif preferred_account_id`
abbrev unbound_reason : Option String → Option String
unbound_reason none = none
unbound_reason (some id) = if id == "" then none else some "account_unavailable"

abbrev plan_for : Option String → Option Candidate → List Candidate → Plan
plan_for preferred_id none ready = among ready (unbound_reason preferred_id)
plan_for preferred_id (some preferred) ready =
    if preferred.base_eligible
    then bound_plan preferred ready
    else among ready (unbound_reason preferred_id)

unfoldable pub plan : Option String → List Candidate → Plan
plan preferred_id candidates =
    plan_for preferred_id (find_first (has_id preferred_id) candidates) (select is_ready candidates)

abbrev class_of : Candidate → ℕ × ℕ
class_of item = (routing_capability_width item.account, routing_plan_rank item.account)

abbrev class_lt : ℕ × ℕ → ℕ × ℕ → Bool
class_lt (a, b) (c, d) = ltb a c || (eqb a c && ltb b d)

abbrev class_same : ℕ × ℕ → ℕ × ℕ → Bool
class_same (a, b) (c, d) = eqb a c && eqb b d

unfoldable pub least_class : ℕ × ℕ → List Candidate → ℕ × ℕ
least_class best [] = best
least_class best (x ∷ xs) = least_class (if class_lt (class_of x) best then class_of x else best) xs

abbrev least_budget : Option ℕ → Option ℕ → Option ℕ
least_budget none known = known
least_budget (some budget) none = some budget
least_budget (some budget) (some known) = some (min budget known)

-- min(known_budgets, default=1)
unfoldable pub smallest_budget : List Candidate → Option ℕ
smallest_budget [] = none
smallest_budget (x ∷ xs) =
    least_budget x.selected_lane.lane.dispatch_budget_count (smallest_budget xs)

abbrev has_soft_room : Candidate → Bool
has_soft_room item = ltb item.active (soft_concurrency_limit item.account)

pub record Ranking : Type 0 where
  pub unknown_weight : ℕ
  pub preferred_class : ℕ × ℕ
  pub headroom : Bool

unfoldable pub ranking : Candidate → List Candidate → Ranking
unfolding least_class smallest_budget soft_concurrency_limit routing_capability_width
    routing_plan_rank
ranking first rest =
    let best = least_class (class_of first) rest in
    record {
      unknown_weight = max 1 (elim (smallest_budget (first ∷ rest)) [ none ↦ 1 | some n ↦ n ]);
      preferred_class = best;
      headroom =
          any_of (λ item. class_same (class_of item) best && has_soft_room item) (first ∷ rest);
    }

abbrev load_of : Candidate → Part
load_of item = ratio item.active (capacity_of item.account)

abbrev pressure_part : ℕ → LaneSnapshot → Option (ℕ × ℕ) → Part
pressure_part weight lane none = ratio (lane.used_count + lane.active_count) weight
pressure_part weight lane (some (a, b)) = ratio a b

abbrev budget_part : Option ℕ → Part
budget_part none = whole (2 ^ 63 - 1)
budget_part (some budget) = whole budget

module _ (tiebreak : String → Option String → String → ℕ) (pool_id : String)
    (chat_id : Option String) where
  unfoldable pub rank : Ranking → Candidate → List Part
  unfolding soft_concurrency_limit routing_capability_width routing_plan_rank
  rank r item =
      let lane = item.selected_lane in
      whole (if is_reserve lane.state then 1 else 0)
      ∷ whole (
          if r.headroom || class_same (class_of item) r.preferred_class || has_soft_room item
          then 0
          else 1)
      ∷ (if r.headroom then whole 0 else load_of item)
      ∷ whole (routing_capability_width item.account)
      ∷ whole (routing_plan_rank item.account)
      ∷ budget_part lane.lane.dispatch_budget_count
      ∷ pressure_part r.unknown_weight lane lane.pressure
      ∷ load_of item
      ∷ negated item.account.priority
      ∷ whole (tiebreak pool_id chat_id item.account.id)
      ∷ whole (or_zero item.account.last_used_at)
      ∷ text item.account.id
      ∷ []

  unfoldable pub best_of : Candidate → List Candidate → Candidate
  unfolding rank ranking least_of
  best_of first rest = least_of (rank (ranking first rest)) first rest

  abbrev carry_out : Plan → Option (Candidate × Option String)
  carry_out (keep item) = some (item, none)
  carry_out refuse = none
  carry_out (among [] reason) = none
  carry_out (among (x ∷ xs) reason) = some (best_of x xs, reason)

  -- `none` is AccountUnavailable.
  unfoldable pub choose_account :
      Option String → List Candidate → Option (Candidate × Option String)
  unfolding plan best_of
  choose_account preferred_id candidates = carry_out (plan preferred_id candidates)
