-- ===== src/AccountPool/Choose.antt =====
-- `_choose_account` with its ranks (src/chatgpt_web_gateway/account_pool.py). Quotients are
-- fractions, compared by their cross products. `_stable_tiebreak` hashes with blake2b and is a
-- parameter.
use Prim.Native.Nat.{Ordering}
use Prim.Native.String.{compare}
use turtle_chat.Prelude.{
  ℕ, ◌+◌, ◌*◌, ◌/◌, max, String, Bool, true, false, ◌||◌, Option, none, some, ◌==◌, string_eq, List,
  [], ◌∷◌, if◌then◌else◌, count_of, ℤ, pos, negsuc,
}
use turtle_chat.Quota.Lane.{Lane}
use turtle_chat.Quota.Lookup.{quota_lane, selection_keys}
use turtle_chat.AccountPool.Types.{Account}
use turtle_chat.AccountPool.Usage.{LaneSnapshot}

pub record Candidate : Type 0 where
  pub account : Account
  pub active : ℕ
  pub base_eligible : Bool
  pub selected_lane : LaneSnapshot

unfoldable pub soft_concurrency_limit : Account → ℕ
soft_concurrency_limit account = max 1 ((max 1 account.max_concurrency * 3 + 3) / 4)

abbrev lane_enabled : Option Lane → Bool
lane_enabled none = false
lane_enabled (some l) = l.enabled

unfoldable pub routing_capability_width : Account → ℕ
routing_capability_width account =
    count_of (λ key. lane_enabled (quota_lane account.quota_profile key account.provider))
      (selection_keys account.provider)

unfoldable pub routing_plan_rank : Account → ℕ
routing_plan_rank account =
    let plan = account.quota_profile in
    if plan == "free"
    then 0
    else if plan == "go"
    then 1
    else if plan == "plus"
    then 2
    else if plan == "pro"
    then 3
    else if plan == "pro-5x" || plan == "max-5x"
    then 4
    else if plan == "pro-20x" || plan == "max-20x"
    then 5
    else if plan == "untracked"
    then 99
    else 50

-- One component of a rank.
pub data Part : Type 0 where
  ratio : ℕ → ℕ → Part
  negated : ℤ → Part
  text : String → Part

abbrev pub whole : ℕ → Part
whole n = ratio n 1

abbrev order_of : ℕ → ℕ → Ordering
order_of a b = Prim.Native.Nat.compare a b

abbrev order_ℤ : ℤ → ℤ → Ordering
order_ℤ (pos a) (pos b) = order_of a b
order_ℤ (pos a) (negsuc b) = Ordering.gt
order_ℤ (negsuc a) (pos b) = Ordering.lt
order_ℤ (negsuc a) (negsuc b) = order_of b a

-- The order of two components in the same place, which are of one kind.
unfoldable pub part_order : Part → Part → Ordering
part_order (ratio a b) (ratio c d) = order_of (a * d) (c * b)
part_order (negated a) (negated b) = order_ℤ b a
part_order (text a) (text b) = compare a b
part_order _ _ = Ordering.eq

-- Tuples compare by their first difference.
unfoldable pub rank_lt : List Part → List Part → Bool
unfolding part_order
rank_lt [] q = false
rank_lt (a ∷ p) [] = false
rank_lt (a ∷ p) (b ∷ q) =
    let later = rank_lt p q in
    elim (part_order a b) [ Ordering.lt ↦ true | Ordering.eq ↦ later | Ordering.gt ↦ false ]

module _ {A : Type 0} (rank : A → List Part) where
  -- min(items, key=rank): the first of the least.
  unfoldable pub least_of : A → List A → A
  least_of best [] = best
  least_of best (x ∷ xs) = least_of (if rank_lt (rank x) (rank best) then x else best) xs
