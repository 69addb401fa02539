-- ===== src/AccountPool/Tests.antt =====
-- Two accounts of one pool, and what is asked of them.
mod Calls
mod Selections
use turtle_chat.Prelude.{
  ℕ, ◌+◌, ◌≤◌, ◌<◌, ◌≡◌, refl, String, true, false, Option, none, some, List, [], ◌∷◌, arith,
  string_eq, ◌==◌, pos, ℤ, any_of, select, count_of, sum_of,
}
use turtle_chat.Dict.{get, put, sweep, values, count}
use turtle_chat.Quota.Lane.{Lane, LaneSource, lane, lane_reserve, closed}
use turtle_chat.Quota.Gpt.{gpt_go, gpt_plus, account_quota_profiles}
use turtle_chat.Quota.Lookup.{
  gpt, quota_lane, profiles_of, selection_keys, quota_lane-IsSoundLane, IsSoundLane,
}
use turtle_chat.AccountPool.Types.{
  Account, AccountGroup, AccountStatus, SessionState, HealthState, PoolLease, AccountStore,
}
use turtle_chat.Prelude.{pair_eq}
use turtle_chat.AccountPool.Usage.{quota_usage, lane_snapshot, lane_state, oldest}
use turtle_chat.AccountPool.Cooldown.{
  dynamic_cap, lane_rate_limit_cooldown_seconds, cooldown_bounds, cooldown_within_window,
}
use turtle_chat.AccountPool.Choose.{
  Candidate, soft_concurrency_limit, routing_capability_width, routing_plan_rank, part_order,
  rank_lt, least_of,
}
use turtle_chat.AccountPool.Select.{
  capacity_of, find_first, plan, least_class, smallest_budget, ranking, rank, best_of,
  choose_account,
}
use turtle_chat.AccountPool.Select.Service.{choose_account_serves}
use turtle_chat.AccountPool.Usage.Coherence.{IsCoherent, lane_snapshot-IsCoherent}
use turtle_chat.AccountPool.Recovery.{claim_rate_limit_recoveries}
use turtle_chat.AccountPool.Recovery.Claims.{claims_bounds}
use turtle_chat.AccountPool.Trace.Rooms.{HasRooms}
use turtle_chat.Prelude.{length}
use turtle_chat.AccountPool.Select.Choices.{choose_account-Ready, choose_account_sticky}
use turtle_chat.AccountPool.Health.{admission_eligible, apply_probe, ready}
use turtle_chat.AccountPool.Store.{
  expire, expire_lease, expire_account, AcquireArgs, active_on, base_eligible, candidate_at,
  candidates, Refusal, routed, refused, route_affinity,
}
use turtle_chat.AccountPool.Acquire.{
  acquire, acquire_from, acquire_in, choose_and_route, route, commit_selected, commit, bind_chat,
  refuse, new_lease, release, Report, key_of,
}
use turtle_chat.AccountPool.Acquire.Candidates.{IsKeyed}
use turtle_chat.AccountPool.Acquire.Routed.{IsRouted, acquire-IsRouted, acquire-refused}
use turtle_chat.AccountPool.Acquire.Released.{release_twice, IsLimited, release-IsLimited}
use turtle_chat.AccountPool.Trace.{Call, acquires, renews, releases, claims, run}
use turtle_chat.AccountPool.Trace.Chats.{holds_chat}
use turtle_chat.AccountPool.Trace.Histories.{active_on-le-capacity_of}
use turtle_chat.AccountPool.Admin.Accounts.{logged_out}
use turtle_chat.AccountPool.Admin.References.{admin_run, deletes_pool, HasPools, admin_run-HasPools}
use turtle_chat.AccountPool.Fence.{Probe, probed, probed_fence}

abbrev pub limited : Report
limited = record {
  outcome = "upstream_error";
  status_code = some 429;
  error_class = some "rate_limited";
  cooldown_seconds = 15;
  retry_after_seconds = none;
  usage_units = pos 1;
}

abbrev pub no_tiebreak : String → Option String → String → ℕ
no_tiebreak pool chat account = 0

abbrev pub account_named : String → Account
account_named id = record {
  id = id;
  pool_id = "main";
  provider = gpt;
  name = id;
  worker_endpoint = id;
  health_path = none;
  enabled = true;
  status = AccountStatus.ready;
  session_state = SessionState.valid;
  health_status = HealthState.healthy;
  max_concurrency = 1;
  priority = pos 0;
  quota_profile = "plus";
  last_used_at = none;
  last_success_at = none;
  last_health_at = none;
  last_error_class = none;
  last_probe_latency_ms = none;
  upstream_display_name = none;
  upstream_identity_updated_at = none;
  consecutive_failures = 0;
  cooldown_until = none;
  deployment_managed = false;
  created_at = 1;
  updated_at = 1;
}

abbrev pub main : AccountGroup
main = record {
  id = "main";
  name = "main";
  description = "";
  provider = gpt;
  enabled = true;
  created_at = 1;
  updated_at = 1;
}

abbrev pub two_accounts : AccountStore
two_accounts = record {
  pools = ("main", main) ∷ [];
  accounts = ("x", account_named "x") ∷ ("y", account_named "y") ∷ [];
  affinity = [];
  leases = [];
  lane_blocks = [];
}

abbrev pub wish : String → AcquireArgs
wish id = record {
  pool_id = "main";
  request_id = id;
  user_id = some "ann";
  chat_id = some "c";
  lease_seconds = 300;
  selection_key = "latest:medium";
  excluded_account_ids = "x" ∷ [];
  required_quota_profiles = [];
  required_account_id = none;
  migration_reason_hint = none;
}

abbrev pub instant : Lane
instant = record {
  enabled = true;
  dispatch_budget_count = some 160;
  window_seconds = 10800;
  reserve_count = 8;
  source = LaneSource.official_published;
  published_min = some 160;
  published_max = some 160;
  published_window_seconds = none;
}

abbrev pub dynamic_lane : Lane
dynamic_lane = record instant {
  dispatch_budget_count = none;
  reserve_count = 0;
  source = LaneSource.official_dynamic;
}

abbrev pub y_lease : PoolLease
y_lease = new_lease (wish "r") "y" 10

abbrev pub y_leased : AccountStore
y_leased = record two_accounts { leases = ("r", y_lease) ∷ [] }

abbrev pub y_used : Account
y_used = record (account_named "y") { last_used_at = some 10 }

-- The request is of no pool that exists.
abbrev pub stray : AcquireArgs
stray = record (wish "r") { pool_id = "gone" }

abbrev pub busy_calls : List Call
busy_calls =
    acquires (wish "r") 10
    ∷ acquires (wish "q") 20
    ∷ renews "r" "y" 300 30
    ∷ releases "r" "y" limited 40
    ∷ claims (λ n. "probe") (pos 1) (pos 90) 2000
    ∷ []

abbrev pub y_free : Candidate
y_free = record {
  account = account_named "y";
  active = 0;
  base_eligible = true;
  selected_lane =
      lane_snapshot dynamic_lane
        (record { used_count = 0; active_count = 0; oldest_success_at = none }) none;
}

abbrev pub found_ready : Probe
found_ready = record {
  state = ready;
  http_status = some 200;
  latency_ms = pos 9;
  name = none;
  now = 60;
}

-- A lane of x is due.
abbrev pub x_due : AccountStore
x_due = record two_accounts {
  lane_blocks =
      (
        ("x", "latest:medium"),
        record {
          account_id = "x";
          selection_key = "latest:medium";
          blocked_until = 30;
          first_rate_limit_at = 10;
          last_rate_limit_at = 20;
          consecutive_failures = 2;
        },
      )
      ∷ [];
}
