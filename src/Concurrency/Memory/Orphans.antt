-- ===== src/Concurrency/Memory/Orphans.antt =====
-- A request whose resolver raises leaves its entry in the queue.
use turtle_chat.Prelude.{
  ℕ, ◌≡◌, sym, ◌∙◌, String, true, false, Option, none, some, List, [], ◌∷◌, arith, string_eq, ◌==◌,
  ◌≢◌, ◌<◌, inl, inr, Bool-cases, Option-cases, ap, leb, ==_eq, some_inj,
}
use mathlib.Core.Path.{subst}
use turtle_chat.Dict.{get, put}
use turtle_chat.Dict.Laws.{get-put, get-sweep}
use turtle_chat.Dict.Items.{AllItems-get}
use turtle_chat.Concurrency.Entry.{Entry, EntryState, Coordinator, is_queued, is_admitted}
use turtle_chat.Concurrency.Limits.{Resolved}
use turtle_chat.Concurrency.Memory.{
  Clock, granted, attempt, decide, can_admit, memory_cleanup, cancel, release, heartbeat, enqueue,
  write,
}
use turtle_chat.Concurrency.Memory.Rivals.{cleanup-queued}
use turtle_chat.Concurrency.Memory.Grants.{attempt-granted}
use turtle_chat.Concurrency.Memory.Within.{WithinCeilings}
use turtle_chat.Concurrency.Memory.Histories.{step-WithinCeilings, waiting-cases}
use turtle_chat.Concurrency.Memory.Trace.{
  Event, Arrival, arrives, attempts, cancels, releases, beats, cleans, step, run, after_arrival,
  after_attempt, after_cancel, acquire_request,
}

-- The event is not an action of the task or the lease of `id`.
abbrev pub IsForeign : String → Event → Type 0
IsForeign id (arrives a now_ms) = Unit
IsForeign id (attempts j r clock) = (j == id) ≡ false
IsForeign id (cancels j now_ms) = (j == id) ≡ false
IsForeign id (releases j outcome now_ms) = (j == id) ≡ false
IsForeign id (beats j now_ms) = Unit
IsForeign id (cleans now_ms) = Unit

abbrev pub AllForeign : String → List Event → Type 0
AllForeign id [] = Unit
AllForeign id (e ∷ es) = IsForeign id e × AllForeign id es

queued_not_admitted : (s : EntryState) → is_queued s ≡ true → is_admitted s ≡ true → ⊥
queued_not_admitted s q a = ground arith

module _ (id : String) (e : Entry) (q : is_queued e.state ≡ true) where
  abbrev Holds : Coordinator → Type 0
  Holds c = get c.memory_entries id ≡ some e

  write-Holds :
      (c : Coordinator) (x : Entry) → (x.request_id == id) ≡ false → Holds c → Holds (write c x)
  write-Holds c x n h = get-put c.memory_entries x.request_id id x ∙ (rw n h)

  cleanup-Holds : (c : Coordinator) (now_ms : ℕ) → Holds c → Holds (memory_cleanup c now_ms)
  unfolding memory_cleanup
  cleanup-Holds c now_ms h = get-sweep _ c.memory_entries id e e h (cleanup-queued now_ms _ e q)

  decide-Holds :
      (c : Coordinator) (x : Entry) (clock : Clock)
      → (x.request_id == id) ≡ false
      → Holds c
      → Holds (decide c x clock).0
  unfolding decide
  decide-Holds c x clock n h = elim (Bool-cases (can_admit x c.memory_entries)) [
    | inl y ↦ rw y (write-Holds c _ n h)
    | inr z ↦ rw z (elim (Bool-cases (leb clock.deadline clock.monotonic)) [
      | inl y ↦ rw y (write-Holds c _ n h)
      | inr y ↦ rw y h
    ])
  ]

  attempt-Holds :
      (c : Coordinator) (x : Entry) (r : Option Resolved) (clock : Clock)
      → (x.request_id == id) ≡ false
      → Holds c
      → Holds (attempt c x r clock).0
  unfolding attempt
  attempt-Holds c x none clock n h = h
  attempt-Holds c x (some r) clock n h =
      decide-Holds _ _ clock n (cleanup-Holds _ clock.now_ms (write-Holds c _ n h))

  -- A write under another key, or of the same entry, changes nothing here.
  put-Holds :
      (c : Coordinator) (j : String) (x : Entry)
      → ((j == id) ≡ true → x ≡ e)
      → Holds c
      → get (put c.memory_entries j x) id ≡ some e
  put-Holds c j x n h = elim (Bool-cases (j == id)) [
    | inl y ↦ get-put c.memory_entries j id x ∙ (rw y (ap some (n y)))
    | inr y ↦ get-put c.memory_entries j id x ∙ (rw y h)
  ]

  other_key :
      (c : Coordinator) (j : String) {o : Option Entry}
      → get c.memory_entries j ≡ o
      → Holds c
      → (j == id) ≡ true
      → o ≡ some e
  other_key c j g h y = sym g ∙ ap (get c.memory_entries) (==_eq j id y) ∙ h

  enqueue-Holds :
      (c : Coordinator) (a : Arrival) (now_ms : ℕ) → Holds c → Holds (step c (arrives a now_ms))
  unfolding step after_arrival enqueue
  enqueue-Holds c a now_ms h =
      elim (Option-cases (get c.memory_entries (acquire_request c a).request_id)) [
        | inl n ↦
            rw (n, enqueue, after_arrival)
              (put-Holds c (acquire_request c a).request_id _
                (λ y. cc (other_key c (acquire_request c a).request_id n h y)) h)
        | inr (x, g) ↦ rw (g, enqueue, after_arrival) h
      ]

  heartbeat-Holds :
      (c : Coordinator) (j : String) (now_ms : ℕ) → Holds c → Holds (heartbeat c j now_ms).0
  unfolding heartbeat
  heartbeat-Holds c j now_ms h = elim (Option-cases (get c.memory_entries j)) [
    | inl n ↦ rw (n, heartbeat) h
    | inr (x, g) ↦ elim (Bool-cases (is_admitted x.state)) [
      | inl y ↦
          rw (g, heartbeat)
            (rw y
              (put-Holds c j _ (λ t. absurd (both_states x y (some_inj (other_key c j g h t)))) h))
      | inr y ↦ rw (g, heartbeat) (rw y h)
    ]
  ]
    where
      both_states : (x : Entry) → is_admitted x.state ≡ true → x ≡ e → ⊥
      both_states x y t =
          queued_not_admitted e.state q (subst (λ (z : Entry). is_admitted z.state ≡ true) t y)

  step-Holds :
      (c : Coordinator) (ev : Event)
      → WithinCeilings c
      → IsForeign id ev
      → Holds c
      → Holds (step c ev)
  unfolding step after_attempt after_cancel cancel release
  step-Holds c (arrives a now_ms) w f h = enqueue-Holds c a now_ms h
  step-Holds c (attempts j r clock) w f h = elim (waiting-cases (get c.memory_entries j)) [
    | inl n ↦ rw (n, after_attempt) h
    | inr (x, g, _, y) ↦
        rw (y, after_attempt)
          (attempt-Holds c x r clock (rw (AllItems-get _ c.memory_entries j x w.capped g).keyed f)
            h)
  ]
  step-Holds c (cancels j now_ms) w f h = elim (waiting-cases (get c.memory_entries j)) [
    | inl n ↦ rw (n, after_cancel) h
    | inr (x, g, _, y) ↦
        rw (y, after_cancel)
          (write-Holds c _ (rw (AllItems-get _ c.memory_entries j x w.capped g).keyed f) h)
  ]
  step-Holds c (releases j outcome now_ms) w f h = elim (Option-cases (get c.memory_entries j)) [
    | inl n ↦ rw (n, release) h
    | inr (x, g) ↦ rw (g, release) (put-Holds c j _ (λ y. cc (y, f)) h)
  ]
  step-Holds c (beats j now_ms) w f h = heartbeat-Holds c j now_ms h
  step-Holds c (cleans now_ms) w f h = cleanup-Holds c now_ms h

  run-Holds :
      (c : Coordinator) (es : List Event)
      → WithinCeilings c
      → AllForeign id es
      → Holds c
      → Holds (run c es)
  unfolding run
  run-Holds c [] w f h = h
  run-Holds c (ev ∷ es) w f h =
      run-Holds (step c ev) es (step-WithinCeilings c ev w) f.1 (step-Holds c ev w f.0 h)

-- Take a coordinator whose limits are kept, as after any history, and a waiting request whose
-- limits resolver raises. Whatever happens then, except rounds, cancellations and releases of that
-- very request, its entry stays queued as it is, and no round admits a request of the same account
-- pool that waits since later, however much room there is.
pub orphan_blocks_pool :
    (c : Coordinator) (e : Entry) (clock : Clock) (es : List Event) (x : Entry) (r : Resolved)
    (clock' : Clock) (x' : Entry)
    → WithinCeilings c
    → get c.memory_entries e.request_id ≡ some e
    → is_queued e.state ≡ true
    → AllForeign e.request_id es
    → get (run (attempt c e none clock).0 es).memory_entries x.request_id ≡ some x
    → e.sequence < x.sequence
    → e.account_pool_id ≡ x.account_pool_id
    → (get (run (attempt c e none clock).0 es).memory_entries e.request_id ≡ some e)
      × ((attempt (run (attempt c e none clock).0 es) x (some r) clock').1 ≢ granted x')
unfolding attempt
orphan_blocks_pool c e clock es x r clock' x' w g q f gx s p =
    let stays = run-Holds e.request_id e q c es w f g in
    (
      stays,
      λ h. ((attempt-granted (run c es) x r clock' x' gx h).2.at_key e.request_id e stays q s).2 p,
    )
