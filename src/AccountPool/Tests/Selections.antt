-- ===== src/AccountPool/Tests/Selections.antt =====
-- Lanes and choices among the accounts.
use turtle_chat.Prelude.{
  ◌+◌, ◌≤◌, ◌<◌, ◌≡◌, refl, String, true, Option, none, some, [], ◌∷◌, arith, string_eq, any_of,
}
use turtle_chat.Dict.{get}
use turtle_chat.Quota.Lane.{lane, lane_reserve}
use turtle_chat.Quota.Gpt.{gpt_go, account_quota_profiles}
use turtle_chat.Quota.Lookup.{gpt, quota_lane, profiles_of, quota_lane-IsSoundLane, IsSoundLane}
use turtle_chat.AccountPool.Types.{LaneBlock}
use turtle_chat.AccountPool.Acquire.{block_lane}
use turtle_chat.AccountPool.Acquire.Probes.{block_lane_delays, block_lane_in_window}
use turtle_chat.Prelude.{pair_eq}
use turtle_chat.AccountPool.Usage.{lane_snapshot, lane_state}
use turtle_chat.AccountPool.Cooldown.{dynamic_cap}
use turtle_chat.AccountPool.Choose.{Candidate}
use turtle_chat.AccountPool.Select.{capacity_of, find_first, choose_account}
use turtle_chat.AccountPool.Select.Service.{choose_account_serves}
use turtle_chat.AccountPool.Usage.Coherence.{IsCoherent, lane_snapshot-IsCoherent}
use turtle_chat.AccountPool.Select.Choices.{choose_account-Ready, choose_account_sticky}
use turtle_chat.AccountPool.Tests.{limited, no_tiebreak, instant, dynamic_lane, y_free}

quota_lane-IsSoundLane_example : IsSoundLane instant
unfolding quota_lane profiles_of account_quota_profiles gpt_go lane lane_reserve get
quota_lane-IsSoundLane_example = quota_lane-IsSoundLane "go" "gpt-5-5:instant" gpt instant refl

abbrev earlier_block : LaneBlock
earlier_block = record {
  account_id = "y";
  selection_key = "latest:high";
  blocked_until = 15000;
  first_rate_limit_at = 3000;
  last_rate_limit_at = 10000;
  consecutive_failures = 2;
}

block_lane_delays_example :
    (20000
      < (block_lane "y" "latest:high" dynamic_lane limited 20000
          (some earlier_block)).blocked_until)
    × ((block_lane "y" "latest:high" dynamic_lane limited 20000 (some earlier_block)).blocked_until
        ≤ 106400)
    × ((block_lane "y" "latest:high" dynamic_lane limited 20000 (some earlier_block)).blocked_until
        ≤ 38000)
block_lane_delays_example =
    block_lane_delays "y" "latest:high" dynamic_lane limited 20000 (some earlier_block)

block_lane_in_window_example :
    (block_lane "y" "latest:high" dynamic_lane limited 20000 (some earlier_block)).blocked_until
    ≤ (block_lane "y" "latest:high" dynamic_lane limited 20000
        (some earlier_block)).first_rate_limit_at
      + dynamic_cap dynamic_lane
unfolding dynamic_cap
block_lane_in_window_example =
    block_lane_in_window "y" "latest:high" dynamic_lane limited 20000 (some earlier_block) refl refl
      (omega arith) (omega arith)

choose_account_sticky_example :
    choose_account no_tiebreak "main" (some "c") (some "y") (y_free ∷ []) ≡ some (y_free, none)
unfolding find_first lane_snapshot lane_state
choose_account_sticky_example =
    choose_account_sticky no_tiebreak "main" (some "c") (some "y") (y_free ∷ []) y_free refl refl
      (omega arith) refl refl

choose_account-Ready_example :
    (y_free.account.id ≡ "y")
    × (y_free.base_eligible ≡ true)
    × (y_free.active < capacity_of y_free.account)
    × (y_free.selected_lane.is_available ≡ true)
choose_account-Ready_example =
    choose_account-Ready no_tiebreak "main" (some "c") (λ x. x.account.id ≡ "y") (some "y")
      (y_free ∷ []) y_free none (refl, tt) choose_account_sticky_example

choose_account_serves_example :
    (r : Candidate × Option String) × (choose_account no_tiebreak "main"
        (some "c")
        (some "x")
        (y_free ∷ [])
      ≡ some r)
unfolding any_of lane_snapshot lane_state
choose_account_serves_example =
    choose_account_serves no_tiebreak "main" (some "c") (some "x") (y_free ∷ []) refl

lane_snapshot-IsCoherent_example : IsCoherent instant (
    lane_snapshot instant
      (record { used_count = 3; active_count = 1; oldest_success_at = some 5 })
      none)
lane_snapshot-IsCoherent_example =
    lane_snapshot-IsCoherent instant
      (record { used_count = 3; active_count = 1; oldest_success_at = some 5 }) none
