-- ===== src/AccountPool/Tests/Calls.antt =====
-- Calls of the store of two accounts.
use turtle_chat.Prelude.{
  ◌≤◌, ◌≡◌, refl, String, true, false, none, some, [], ◌∷◌, arith, string_eq, ◌==◌, pos, any_of,
  select, count_of, sum_of,
}
use turtle_chat.Dict.{get, put, sweep, values, count}
use turtle_chat.Quota.Lane.{lane, lane_reserve, closed}
use turtle_chat.Quota.Gpt.{gpt_plus, account_quota_profiles}
use turtle_chat.Quota.Lookup.{quota_lane, profiles_of, selection_keys}
use turtle_chat.AccountPool.Types.{Account}
use turtle_chat.Prelude.{pair_eq}
use turtle_chat.AccountPool.Usage.{quota_usage, lane_snapshot, lane_state, oldest}
use turtle_chat.AccountPool.Choose.{
  soft_concurrency_limit, routing_capability_width, routing_plan_rank, part_order, rank_lt,
  least_of,
}
use turtle_chat.AccountPool.Select.{
  capacity_of, find_first, plan, least_class, smallest_budget, ranking, rank, best_of,
  choose_account,
}
use turtle_chat.AccountPool.Recovery.{claim_rate_limit_recoveries}
use turtle_chat.AccountPool.Recovery.Claims.{claims_bounds}
use turtle_chat.AccountPool.Trace.Rooms.{HasRooms}
use turtle_chat.Prelude.{length}
use turtle_chat.AccountPool.Health.{admission_eligible, apply_probe, ready}
use turtle_chat.AccountPool.Store.{
  expire, expire_lease, expire_account, active_on, base_eligible, candidate_at, candidates, Refusal,
  routed, refused, route_affinity,
}
use turtle_chat.AccountPool.Acquire.{
  acquire, acquire_from, acquire_in, choose_and_route, route, commit_selected, commit, bind_chat,
  refuse, release, key_of,
}
use turtle_chat.AccountPool.Acquire.Candidates.{IsKeyed}
use turtle_chat.AccountPool.Acquire.Routed.{IsRouted, acquire-IsRouted, acquire-refused}
use turtle_chat.AccountPool.Acquire.Released.{release_twice, IsLimited, release-IsLimited}
use turtle_chat.AccountPool.Trace.{run}
use turtle_chat.AccountPool.Trace.Chats.{holds_chat}
use turtle_chat.AccountPool.Trace.Histories.{active_on-le-capacity_of}
use turtle_chat.AccountPool.Admin.Accounts.{logged_out}
use turtle_chat.AccountPool.Admin.References.{admin_run, deletes_pool, HasPools, admin_run-HasPools}
use turtle_chat.AccountPool.Fence.{probed, probed_fence}
use turtle_chat.AccountPool.Tests.{
  limited, no_tiebreak, account_named, two_accounts, wish, y_lease, y_leased, y_used, stray,
  busy_calls, found_ready, x_due,
}
use turtle_chat.AccountPool.Admin.Defaults.{initialize, empty_store, IsStart, initialize-IsStart}

two_accounts-IsKeyed : IsKeyed two_accounts.accounts
unfolding get
two_accounts-IsKeyed = ((refl, (refl, tt)), (refl, (refl, tt)))

release_twice_example :
    release (release two_accounts "r" "y" limited 20) "r" "y" limited 30
    ≡ release two_accounts "r" "y" limited 20
release_twice_example = release_twice two_accounts "r" "y" limited limited 20 30

release-IsLimited_example :
    IsLimited y_leased
      (account_named "y")
      "y"
      (key_of y_lease)
      limited
      20
      (release y_leased "r" "y" limited 20)
unfolding get
release-IsLimited_example =
    release-IsLimited y_leased "r" "y" y_lease (account_named "y") limited 20 refl refl refl refl
      refl

routed_to_y : (acquire no_tiebreak two_accounts (wish "r") 10).1 ≡ routed y_used
unfolding acquire acquire_from acquire_in choose_and_route route commit_selected commit bind_chat
    refuse expire expire_lease expire_account sweep get put values count any_of select count_of
    sum_of candidates candidate_at base_eligible active_on admission_eligible quota_usage oldest
    lane_snapshot lane_state quota_lane profiles_of account_quota_profiles gpt_plus lane
    lane_reserve closed selection_keys choose_account plan find_first best_of rank ranking least_of
    least_class smallest_budget soft_concurrency_limit routing_capability_width routing_plan_rank
    rank_lt part_order route_affinity
routed_to_y = refl

acquire-IsRouted_example :
    IsRouted
      (expire two_accounts 10)
      (wish "r")
      10
      y_used
      (acquire no_tiebreak two_accounts (wish "r") 10).0
acquire-IsRouted_example =
    acquire-IsRouted no_tiebreak two_accounts (wish "r") 10 y_used two_accounts-IsKeyed routed_to_y

stray_refused : (acquire no_tiebreak two_accounts stray 10).1 ≡ refused Refusal.pool_disabled
unfolding acquire acquire_from acquire_in refuse expire sweep get
stray_refused = refl

acquire-refused_example : (acquire no_tiebreak two_accounts stray 10).0 ≡ expire two_accounts 10
acquire-refused_example =
    acquire-refused no_tiebreak two_accounts stray 10 Refusal.pool_disabled two_accounts-IsKeyed
      stray_refused

active_on-le-capacity_of_example :
    ((id : String) (account : Account)
      → get (run no_tiebreak two_accounts busy_calls).accounts id ≡ some account
      → active_on id (run no_tiebreak two_accounts busy_calls).leases ≤ capacity_of account)
    × ((pool_id chat_id : String)
        → (chat_id == "") ≡ false
        → count (holds_chat pool_id chat_id) (run no_tiebreak two_accounts busy_calls).leases ≤ 1)
active_on-le-capacity_of_example =
    active_on-le-capacity_of no_tiebreak two_accounts busy_calls two_accounts-IsKeyed refl

admin_run-HasPools_example : HasPools (admin_run two_accounts (deletes_pool "main" ∷ []))
unfolding get
admin_run-HasPools_example =
    admin_run-HasPools two_accounts (deletes_pool "main" ∷ []) (refl, (refl, tt))

probed_fence_example :
    (admission_eligible (probed (logged_out y_used 50) (found_ready ∷ [])) 70 ≡ false)
    × (admission_eligible
          (apply_probe (logged_out y_used 50) ready (some 200) (pos 3) none true 80)
          90
        ≡ true)
probed_fence_example =
    probed_fence y_used 50 (found_ready ∷ []) 70 (logged_out y_used 50) (some 200) (pos 3) none 80
      90 refl

claims_bounds_example :
    (length (claim_rate_limit_recoveries (λ n. "probe") x_due (pos 1) (pos 90) 40).1 ≤ 1)
    × HasRooms (claim_rate_limit_recoveries (λ n. "probe") x_due (pos 1) (pos 90) 40).0
unfolding active_on count
claims_bounds_example = claims_bounds (λ n. "probe") x_due (pos 1) (pos 90) 40 (λ id. omega arith)

initialize-IsStart_example :
    IsStart (initialize empty_store (account_named "x" ∷ account_named "x" ∷ []) 5)
initialize-IsStart_example = initialize-IsStart (account_named "x" ∷ account_named "x" ∷ []) 5
