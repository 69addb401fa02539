-- ===== src/Quota/Lookup.antt =====
-- `normalize_quota_profile`, `selection_keys` and `quota_lane`
-- (src/chatgpt_web_gateway/account_quota.py). A profile identifier is the text after
-- `str(value or "untracked").strip().lower()`; `none` is the ValueError.
use turtle_chat.Prelude.{
  ℕ, ◌<◌, String, Option, none, some, List, ◌≡◌, refl, ap, sym, ◌∙◌, string_eq, arith, to_nat,
  Option-cases, inl, inr, some_inj,
}
use mathlib.Core.Path.{subst}
use turtle_chat.Dict.{Dict, get}
use turtle_chat.Dict.Items.{AllItems, AllItems-get}
use turtle_chat.Quota.Lane.{Lane, lane, closed, untracked_lanes}
use turtle_chat.Quota.Gpt.{gpt_selection_keys, account_quota_profiles}
use turtle_chat.Quota.Claude.{claude_selection_keys, claude_account_quota_profiles}

pub data Provider : Type 0 where
  gpt claude : Provider

unfoldable pub profiles_of : Provider → Dict String (Dict String Lane)
unfolding account_quota_profiles claude_account_quota_profiles
profiles_of gpt = account_quota_profiles
profiles_of claude = claude_account_quota_profiles

abbrev accept : String → Option (Dict String Lane) → Option String
accept profile none = none
accept profile (some lanes) = some profile

unfoldable pub normalize_quota_profile : String → Provider → Option String
unfolding profiles_of get
normalize_quota_profile profile provider = accept profile (get (profiles_of provider) profile)

unfoldable pub selection_keys : Provider → List String
selection_keys gpt = gpt_selection_keys
selection_keys claude = claude_selection_keys

abbrev or_closed : Option Lane → Lane
or_closed none = closed
or_closed (some l) = l

abbrev lane_in : String → Option (Dict String Lane) → Option Lane
lane_in key none = none
lane_in key (some lanes) = some (or_closed (get lanes key))

unfoldable pub quota_lane : String → String → Provider → Option Lane
unfolding profiles_of get closed
quota_lane profile key provider = lane_in key (get (profiles_of provider) profile)

-- A lane with a budget counts it over a window, and keeps a part of it in reserve, not all.
abbrev pub BudgetIsSound : Option ℕ → Lane → Type 0
BudgetIsSound none l = l.reserve_count ≡ 0
BudgetIsSound (some budget) l =
    (to_nat l.enabled ≡ 1)
    × (0 < l.window_seconds)
    × (0 < l.reserve_count)
    × (l.reserve_count < budget)

abbrev pub IsSoundLane : Lane → Type 0
IsSoundLane l = BudgetIsSound l.dispatch_budget_count l

profiles-IsSound :
    (p : Provider)
    → AllItems (λ profile lanes. AllItems (λ key l. IsSoundLane l) lanes) (profiles_of p)
unfolding profiles_of lane closed untracked_lanes
profiles-IsSound gpt = omega arith
profiles-IsSound claude = omega arith

or_closed-IsSound :
    (o : Option Lane) → ((l : Lane) → o ≡ some l → IsSoundLane l) → IsSoundLane (or_closed o)
unfolding closed
or_closed-IsSound none h = refl
or_closed-IsSound (some l) h = h l refl

-- Every lane that `quota_lane` returns, for any provider, profile and selection key, has no
-- reserve if it has no budget; with a budget it is open, counts the budget over a window of
-- positive length, and keeps a reserve of at least one and less than the budget.
pub quota_lane-IsSoundLane :
    (profile key : String) (p : Provider) (l : Lane)
    → quota_lane profile key p ≡ some l
    → IsSoundLane l
unfolding quota_lane
quota_lane-IsSoundLane profile key p l h = elim (Option-cases (get (profiles_of p) profile)) [
  | inl n ↦ cc (ap (lane_in key) n)
  | inr (lanes, g) ↦ subst IsSoundLane (some_inj (sym (ap (lane_in key) g) ∙ h)) (
      or_closed-IsSound (get lanes key) (λ l'.
        AllItems-get _ lanes key l'
          (AllItems-get _ (profiles_of p) profile lanes (profiles-IsSound p) g)))
]
