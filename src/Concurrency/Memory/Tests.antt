-- ===== src/Concurrency/Memory/Tests.antt =====
-- Two requests of one account pool, run through the coordinator.
use turtle_chat.Prelude.{
  ℕ, ◌+◌, ◌≤◌, ◌≡◌, ◌≢◌, refl, String, none, some, List, [], ◌∷◌, arith, string_eq, pos,
}
use turtle_chat.Dict.{get, put, sweep, values, count}
use turtle_chat.Prelude.{any_of, select, contains, starts_with, take_text}
use turtle_chat.Concurrency.Entry.{
  Environment, unset, EntryState, Entry, Coordinator, provider_limit, positive_env, init,
}
use turtle_chat.Concurrency.Limits.{no_resolver, capacity, refresh_dynamic_limits, request_limits}
use turtle_chat.Concurrency.Memory.{
  Clock, granted, active_total, memory_active, memory_cleanup, cleanup_entry, expire_lease,
  forget_completed, can_admit, has_earlier_rival, waiting, insert_by_sequence, sort_by_sequence,
  admit, settle, decide, attempt, release, state_for_outcome, enqueue,
}
use turtle_chat.Concurrency.Memory.Ceilings.{admitted_entry, refreshed}
use turtle_chat.Concurrency.Memory.Within.{WithinCeilings}
use turtle_chat.Concurrency.Memory.Histories.{run-Within, init-WithinCeilings, active-le-ceilings}
use turtle_chat.Concurrency.Memory.Grants.{attempt-granted, WithinLimits, IsServedInTurn}
use turtle_chat.Concurrency.Memory.Turns.{attempt_next, release_frees}
use turtle_chat.Concurrency.Memory.Orphans.{orphan_blocks_pool}
use turtle_chat.Concurrency.Memory.Trace.{
  Arrival, Event, arrives, attempts, releases, cleans, run, step, acquire_request, pool_or_default,
  waiting_entry, after_arrival, after_attempt,
}

abbrev quiet : Environment
quiet name = unset

abbrev arrival : String → String → Arrival
arrival id user = record {
  request_id = id;
  user_id = user;
  group_id = user;
  provider = "gpt";
  user_limit = pos 2;
  group_limit = pos 2;
  account_pool_id = none;
  account_pool_limit = some (pos 1);
  provider_cap = none;
  global_cap = none;
}

abbrev at_time : ℕ → Clock
at_time t = record {
  now_ms = t;
  admitted_at = t;
  completed_at = t;
  monotonic = t;
  deadline = 120000;
}

abbrev two_arrivals : List Event
two_arrivals = arrives (arrival "a" "ann") 10 ∷ arrives (arrival "b" "bob") 20 ∷ []

abbrev busy_day : List Event
busy_day =
    arrives (arrival "a" "ann") 10
    ∷ arrives (arrival "b" "bob") 20
    ∷ attempts "b" (some no_resolver) (at_time 30)
    ∷ attempts "a" (some no_resolver) (at_time 40)
    ∷ releases "a" "success" 50
    ∷ attempts "b" (some (capacity (pos 3))) (at_time 60)
    ∷ []

queued_pair : Coordinator
unfolding run step after_arrival enqueue acquire_request pool_or_default request_limits
    provider_limit positive_env init get put
queued_pair = run (init quiet) two_arrivals

abbrev entry : String → String → ℕ → ℕ → Entry
entry id user queued_at n = record {
  request_id = id;
  user_id = user;
  group_id = user;
  provider = "gpt";
  account_pool_id = "gpt-default";
  limits = record { user = 2; group = 2; account_pool = 1; provider = 24; global = 32 };
  queued_at_ms = queued_at;
  sequence = n;
  state = EntryState.queued;
  outcome = none;
  admitted_at_ms = none;
  lease_expires_at_ms = none;
  completed_at_ms = none;
}

abbrev ann : Entry
ann = entry "a" "ann" 10 1

abbrev bob : Entry
bob = entry "b" "bob" 20 2

queued_pair-ann : get queued_pair.memory_entries "a" ≡ some ann
unfolding queued_pair
queued_pair-ann = refl

queued_pair-bob : get queued_pair.memory_entries "b" ≡ some bob
unfolding queued_pair
queued_pair-bob = refl

-- Bob is turned away while Ann waits, and admitted when she has left.
busy_day_ends : (active_total (run (init quiet) busy_day).memory_entries ≡ 1)
unfolding queued_pair attempt after_attempt waiting_entry memory_cleanup cleanup_entry expire_lease
    forget_completed decide can_admit has_earlier_rival waiting insert_by_sequence sort_by_sequence
    admit settle release state_for_outcome active_total memory_active count values sweep any_of
    select refresh_dynamic_limits take_text contains starts_with
busy_day_ends = refl

queued_pair-WithinCeilings : WithinCeilings queued_pair
unfolding queued_pair
queued_pair-WithinCeilings =
    run-Within quiet 32 (init quiet) two_arrivals refl refl (init-WithinCeilings quiet)

active-le-ceilings_example :
    (active_total (run (init quiet) busy_day).memory_entries ≤ (init quiet).global_limit)
    × ((provider : String)
        → memory_active (λ e. e.provider) provider (run (init quiet) busy_day).memory_entries
          ≤ provider_limit quiet provider)
active-le-ceilings_example = active-le-ceilings quiet busy_day

abbrev ann_admitted : Entry
ann_admitted = admitted_entry queued_pair (refreshed queued_pair ann no_resolver) (at_time 30)

ann_granted : (attempt queued_pair ann (some no_resolver) (at_time 30)).1 ≡ granted ann_admitted
unfolding queued_pair attempt memory_cleanup cleanup_entry expire_lease forget_completed decide
    can_admit has_earlier_rival waiting insert_by_sequence sort_by_sequence admit active_total
    memory_active count values sweep any_of select refresh_dynamic_limits
ann_granted = refl

attempt-granted_example :
    WithinLimits ann_admitted
      (attempt queued_pair ann (some no_resolver) (at_time 30)).0.memory_entries
    × (get (attempt queued_pair ann (some no_resolver) (at_time 30)).0.memory_entries "a"
        ≡ some ann_admitted)
    × IsServedInTurn ann queued_pair.memory_entries
attempt-granted_example =
    attempt-granted queued_pair ann no_resolver (at_time 30) ann_admitted queued_pair-ann
      ann_granted

attempt_next_example :
    (attempt queued_pair ann (some no_resolver) (at_time 30)).1 ≡ granted ann_admitted
unfolding queued_pair memory_active active_total count refresh_dynamic_limits
attempt_next_example =
    attempt_next queued_pair ann no_resolver (at_time 30) queued_pair-ann (refl, (refl, tt))
      (record {
        user = omega arith;
        group = omega arith;
        account_pool = omega arith;
        provider = omega arith;
        global = omega arith;
      })

abbrev ann_active : Coordinator
ann_active = record queued_pair { memory_entries = ("a", ann_admitted) ∷ [] }

release_frees_example :
    (active_total (release ann_active "a" "success" 50).memory_entries + 1
      ≡ active_total ann_active.memory_entries)
    × (memory_active (λ x. x.user_id) "ann" (release ann_active "a" "success" 50).memory_entries + 1
        ≡ memory_active (λ x. x.user_id) "ann" ann_active.memory_entries)
    × (memory_active (λ x. x.group_id) "ann" (release ann_active "a" "success" 50).memory_entries
          + 1
        ≡ memory_active (λ x. x.group_id) "ann" ann_active.memory_entries)
    × (memory_active
            (λ x. x.account_pool_id)
            "gpt-default"
            (release ann_active "a" "success" 50).memory_entries
          + 1
        ≡ memory_active (λ x. x.account_pool_id) "gpt-default" ann_active.memory_entries)
    × (memory_active
            (λ x. x.provider)
            ann_admitted.provider
            (release ann_active "a" "success" 50).memory_entries
          + 1
        ≡ memory_active (λ x. x.provider) ann_admitted.provider ann_active.memory_entries)
unfolding get
release_frees_example = release_frees ann_active "a" "success" 50 ann_admitted refl refl

orphan_blocks_pool_example :
    (get (run (attempt queued_pair ann none (at_time 30)).0 (cleans 500000 ∷ [])).memory_entries "a"
      ≡ some ann)
    × ((attempt
          (run (attempt queued_pair ann none (at_time 30)).0 (cleans 500000 ∷ []))
          bob
          (some no_resolver)
          (at_time 500001)).1
        ≢ granted (admitted_entry queued_pair bob (at_time 500001)))
unfolding queued_pair attempt run step memory_cleanup sweep cleanup_entry expire_lease
    forget_completed get
orphan_blocks_pool_example =
    orphan_blocks_pool queued_pair ann (at_time 30) (cleans 500000 ∷ []) bob no_resolver
      (at_time 500001) (admitted_entry queued_pair bob (at_time 500001)) queued_pair-WithinCeilings
      queued_pair-ann refl (tt, tt) refl (omega arith) refl
