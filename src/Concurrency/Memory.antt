-- ===== src/Concurrency/Memory.antt =====
-- The in-memory coordinator: `_memory_cleanup`, `_memory_active`, `_acquire_memory`, `release`,
-- `_heartbeat_loop`, `status` and `snapshot` of ChatConcurrencyCoordinator
-- (branding/open-webui/turtle_chat/concurrency.py). Every function here is one stretch of code
-- that runs under `_memory_condition`; the clock readings are arguments.
pub mod Trace
pub mod Admission
pub mod Rivals
mod Tests
pub mod Ceilings
pub mod Orphans
pub mod Turns
pub mod Grants
pub mod Within
pub mod Histories
pub mod Counts
use turtle_chat.Prelude.{
  ℕ, ◌+◌, ◌*◌, String, Bool, true, false, not, ◌&&◌, ◌||◌, Option, none, some, ◌==◌, string_eq,
  if◌then◌else◌, ltb, leb, List, [], ◌∷◌, any_of, select, take_text, contains, suc,
}
use turtle_chat.Dict.{get, put, sweep, values, count}
use turtle_chat.Concurrency.Entry.{
  Limits, EntryState, Entry, Entries, Coordinator, is_queued, is_admitted,
}
use turtle_chat.Concurrency.Limits.{Resolved, refresh_dynamic_limits}

abbrev pub or_zero : Option ℕ → ℕ
or_zero none = 0
or_zero (some n) = n

pub expire_lease : ℕ → Entry → Entry
expire_lease now_ms entry =
    if is_admitted entry.state && leb (or_zero entry.lease_expires_at_ms) now_ms
    then record entry {
      state = EntryState.failed;
      outcome = some "lease_expired";
      completed_at_ms = some now_ms;
    }
    else entry

-- `completed_at_ms < now_ms - ttl_ms`, without the subtraction.
pub forget_completed : ℕ → ℕ → Entry → Option Entry
forget_completed now_ms ttl_ms entry =
    if not (is_queued entry.state || is_admitted entry.state)
      && ltb (or_zero entry.completed_at_ms + ttl_ms) now_ms
    then none
    else some entry

pub cleanup_entry : ℕ → ℕ → Entry → Option Entry
unfolding expire_lease forget_completed
cleanup_entry now_ms ttl_ms entry = forget_completed now_ms ttl_ms (expire_lease now_ms entry)

pub memory_cleanup : Coordinator → ℕ → Coordinator
memory_cleanup c now_ms = record c {
  memory_entries = sweep (cleanup_entry now_ms (c.status_ttl_seconds * 1000)) c.memory_entries;
}

-- `_memory_active(field, value)`, the field given by its projection.
abbrev pub active_where : (Entry → String) → String → Entry → Bool
active_where field value entry = is_admitted entry.state && field entry == value

pub memory_active : (Entry → String) → String → Entries → ℕ
memory_active field value entries = count (active_where field value) entries

pub active_total : Entries → ℕ
active_total entries = count (λ entry. is_admitted entry.state) entries

-- sorted(..., key=lambda item: item["sequence"])
pub insert_by_sequence : Entry → List Entry → List Entry
insert_by_sequence entry [] = entry ∷ []
insert_by_sequence entry (item ∷ rest) =
    if leb entry.sequence item.sequence
    then entry ∷ item ∷ rest
    else item ∷ insert_by_sequence entry rest

pub sort_by_sequence : List Entry → List Entry
sort_by_sequence [] = []
sort_by_sequence (entry ∷ rest) = insert_by_sequence entry (sort_by_sequence rest)

pub waiting : Entries → List Entry
unfolding insert_by_sequence sort_by_sequence
waiting entries = sort_by_sequence (select (λ item. is_queued item.state) (values entries))

abbrev pub shares_scope : Entry → Entry → Bool
shares_scope entry item =
    item.user_id == entry.user_id
    || item.group_id == entry.group_id
    || item.account_pool_id == entry.account_pool_id

pub has_earlier_rival : Entry → Entries → Bool
has_earlier_rival entry entries =
    any_of (shares_scope entry)
      (select (λ item. ltb item.sequence entry.sequence) (waiting entries))

pub can_admit : Entry → Entries → Bool
can_admit entry entries =
    not (has_earlier_rival entry entries)
    && ltb (memory_active (λ e. e.user_id) entry.user_id entries) entry.limits.user
    && ltb (memory_active (λ e. e.group_id) entry.group_id entries) entry.limits.group
    && ltb (memory_active (λ e. e.account_pool_id) entry.account_pool_id entries)
        entry.limits.account_pool
    && ltb (memory_active (λ e. e.provider) entry.provider entries) entry.limits.provider
    && ltb (active_total entries) entry.limits.global

pub record Request : Type 0 where
  pub request_id : String
  pub user_id : String
  pub group_id : String
  pub provider : String
  pub account_pool_id : String
  pub limits : Limits

-- The head of `_acquire_memory`; `none` is the error for an identifier that is in use.
pub enqueue : Coordinator → Request → ℕ → Option Coordinator
enqueue c r queued_at = elim (get c.memory_entries r.request_id) [
  | some existing ↦ none
  | none ↦ some (record c {
    memory_sequence = suc c.memory_sequence;
    memory_entries = put c.memory_entries r.request_id (record {
      request_id = r.request_id;
      user_id = r.user_id;
      group_id = r.group_id;
      provider = r.provider;
      account_pool_id = r.account_pool_id;
      limits = r.limits;
      queued_at_ms = queued_at;
      sequence = suc c.memory_sequence;
      state = EntryState.queued;
      outcome = none;
      admitted_at_ms = none;
      lease_expires_at_ms = none;
      completed_at_ms = none;
    });
  })
]

-- The clock readings of one round: `_now_ms` before the cleanup, at the admission and at the time
-- out, and `time.monotonic` against the deadline.
pub record Clock : Type 0 where
  pub now_ms : ℕ
  pub admitted_at : ℕ
  pub completed_at : ℕ
  pub monotonic : ℕ
  pub deadline : ℕ

pub data Verdict : Type 0 where
  granted : Entry → Verdict
  waits : Verdict
  queue_timeout : Verdict
  resolver_failed : Verdict

abbrev pub write : Coordinator → Entry → Coordinator
write c entry = record c { memory_entries = put c.memory_entries entry.request_id entry }

pub admit : Coordinator → Entry → Clock → Coordinator × Verdict
admit c entry clock =
    let entry' : Entry = record entry {
      state = EntryState.admitted;
      admitted_at_ms = some clock.admitted_at;
      lease_expires_at_ms = some (clock.admitted_at + c.lease_seconds * 1000);
    } in
    (write c entry', Verdict.granted entry')

pub settle : Coordinator → Entry → EntryState → String → ℕ → Coordinator
settle c entry state outcome completed_at =
    write c
      (record entry { state = state; outcome = some outcome; completed_at_ms = some completed_at })

pub decide : Coordinator → Entry → Clock → Coordinator × Verdict
unfolding admit settle
decide c entry clock =
    if can_admit entry c.memory_entries
    then admit c entry clock
    else if leb clock.deadline clock.monotonic
    then (
      settle c entry EntryState.timed_out "queue_timeout" clock.completed_at,
      Verdict.queue_timeout,
    )
    else (c, Verdict.waits)

-- One round of the loop in `_acquire_memory`. The task's `limits` are those of its entry; `none`
-- is a resolver that raises, which leaves the entry as it is.
pub attempt : Coordinator → Entry → Option Resolved → Clock → Coordinator × Verdict
attempt c entry none clock = (c, Verdict.resolver_failed)
attempt c entry (some resolved) clock =
    let entry' : Entry = record entry {
      limits = refresh_dynamic_limits c entry.limits entry.provider resolved;
    } in
    decide (memory_cleanup (write c entry') clock.now_ms) entry' clock

-- `except asyncio.CancelledError` of `_acquire_memory`.
pub cancel : Coordinator → Entry → ℕ → Coordinator
unfolding settle
cancel c entry now_ms = settle c entry EntryState.cancelled "queue_cancelled" now_ms

pub state_for_outcome : String → EntryState
state_for_outcome outcome =
    if outcome == "success" || outcome == "completed"
    then EntryState.completed
    else if contains "cancel" outcome
    then EntryState.cancelled
    else if contains "timeout" outcome
    then EntryState.timed_out
    else EntryState.failed

pub release : Coordinator → String → String → ℕ → Coordinator
release c request_id outcome now_ms = elim (get c.memory_entries request_id) [
  | none ↦ c
  | some entry ↦ record c {
    memory_entries = put c.memory_entries request_id (record entry {
      state = state_for_outcome outcome;
      outcome = some (take_text 64 outcome);
      completed_at_ms = some now_ms;
    });
  }
]

-- One beat of `_heartbeat_loop`; `false` ends the loop.
pub heartbeat : Coordinator → String → ℕ → Coordinator × Bool
heartbeat c request_id now_ms = elim (get c.memory_entries request_id) [
  | none ↦ (c, false)
  | some entry ↦
      if is_admitted entry.state
      then (
        record c {
          memory_entries =
              put c.memory_entries request_id
                (record entry { lease_expires_at_ms = some (now_ms + c.lease_seconds * 1000) });
        },
        true,
      )
      else (c, false)
]
