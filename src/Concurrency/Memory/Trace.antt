-- ===== src/Concurrency/Memory/Trace.antt =====
-- The coordinator as a machine: what requests, clocks, resolvers and cancellations do to it, one
-- event for each stretch of code under `_memory_condition`
-- (branding/open-webui/turtle_chat/concurrency.py).
use Prim.Native.String.{◌++◌}
use turtle_chat.Prelude.{
  ℕ, String, Option, none, some, ◌==◌, string_eq, if◌then◌else◌, List, [], ◌∷◌, ℤ,
}
use turtle_chat.Dict.{get}
use turtle_chat.Concurrency.Entry.{Entry, Coordinator, is_queued}
use turtle_chat.Concurrency.Limits.{Resolved, request_limits}
use turtle_chat.Concurrency.Memory.{
  Request, Clock, memory_cleanup, enqueue, attempt, cancel, release, heartbeat,
}

-- The keyword arguments of `acquire`, the identifier already normalized.
pub record Arrival : Type 0 where
  pub request_id : String
  pub user_id : String
  pub group_id : String
  pub provider : String
  pub user_limit : ℤ
  pub group_limit : ℤ
  pub account_pool_id : Option String
  pub account_pool_limit : Option ℤ
  pub provider_cap : Option ℤ
  pub global_cap : Option ℤ

-- `account_pool_id or f"{provider}-default"`
unfoldable pub pool_or_default : String → Option String → String
pool_or_default provider none = provider ++ "-default"
pool_or_default provider (some pool) = if pool == "" then provider ++ "-default" else pool

unfoldable pub acquire_request : Coordinator → Arrival → Request
unfolding pool_or_default
acquire_request c a = record {
  request_id = a.request_id;
  user_id = a.user_id;
  group_id = a.group_id;
  provider = a.provider;
  account_pool_id = pool_or_default a.provider a.account_pool_id;
  limits =
      request_limits c a.provider a.user_limit a.group_limit a.account_pool_limit a.provider_cap
        a.global_cap;
}

pub data Event : Type 0 where
  arrives : Arrival → ℕ → Event
  attempts : String → Option Resolved → Clock → Event
  cancels : String → ℕ → Event
  releases : String → String → ℕ → Event
  beats : String → ℕ → Event
  cleans : ℕ → Event

-- The entry of a task that still waits in `_acquire_memory`.
unfoldable pub waiting_entry : Option Entry → Option Entry
waiting_entry none = none
waiting_entry (some entry) = if is_queued entry.state then some entry else none

unfoldable pub after_arrival : Coordinator → Option Coordinator → Coordinator
after_arrival c none = c
after_arrival c (some c') = c'

unfoldable pub after_attempt : Coordinator → Option Resolved → Clock → Option Entry → Coordinator
after_attempt c resolved clock none = c
after_attempt c resolved clock (some entry) = (attempt c entry resolved clock).0

unfoldable pub after_cancel : Coordinator → ℕ → Option Entry → Coordinator
after_cancel c now_ms none = c
after_cancel c now_ms (some entry) = cancel c entry now_ms

unfoldable pub step : Coordinator → Event → Coordinator
step c (arrives a now_ms) = after_arrival c (enqueue c (acquire_request c a) now_ms)
step c (attempts request_id resolved clock) =
    after_attempt c resolved clock (waiting_entry (get c.memory_entries request_id))
step c (cancels request_id now_ms) =
    after_cancel c now_ms (waiting_entry (get c.memory_entries request_id))
step c (releases request_id outcome now_ms) = release c request_id outcome now_ms
step c (beats request_id now_ms) = (heartbeat c request_id now_ms).0
step c (cleans now_ms) = memory_cleanup c now_ms

unfoldable pub run : Coordinator → List Event → Coordinator
run c [] = c
run c (e ∷ es) = run (step c e) es
