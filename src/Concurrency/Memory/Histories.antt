-- ===== src/Concurrency/Memory/Histories.antt =====
-- The ceilings along any history of the machine.
use turtle_chat.Prelude.{
  ℕ, ◌+◌, ◌*◌, ◌≤◌, ◌≡◌, refl, sym, ◌∙◌, String, true, false, Option, none, some, List, [], ◌∷◌,
  arith, string_eq, inl, inr, Bool-cases, Option-cases, ◌⊎◌,
}
use mathlib.Core.Path.{subst, subst₂}
use turtle_chat.Dict.{get, put, count}
use turtle_chat.Dict.Items.{AllItems-get, AllItems-put}
use turtle_chat.Concurrency.Entry.{
  Environment, Entry, Entries, Coordinator, is_admitted, is_queued, provider_limit, init,
}
use turtle_chat.Concurrency.Memory.{
  active_total, memory_active, memory_cleanup, cancel, release, heartbeat, enqueue,
  state_for_outcome,
}
use turtle_chat.Concurrency.Memory.Counts.{
  provider-IsActiveTest, total-IsActiveTest, put-same, put-inactive, count-cleanup,
}
use turtle_chat.Concurrency.Memory.Ceilings.{IsCapped, request_limits_caps, cleanup-Capped}
use turtle_chat.Concurrency.Memory.Trace.{
  Event, Arrival, arrives, attempts, cancels, releases, beats, cleans, step, run, waiting_entry,
  after_arrival, after_attempt, after_cancel, acquire_request,
}
use turtle_chat.Concurrency.Memory.Within.{
  Within, WithinCeilings, attempt_settings, attempt-WithinCeilings,
}

module _ {env : Environment} {global : ℕ} {d : Entries} (w : Within env global d) where
  put_inactive-Within :
      (id : String) (e : Entry)
      → is_admitted e.state ≡ false
      → IsCapped env global id e
      → Within env global (put d id e)
  unfolding active_total memory_active
  put_inactive-Within id e off k = record {
    total = omega (arith, w.total, put-inactive total-IsActiveTest d id e off);
    families = λ p. omega (arith, w.families p, put-inactive (provider-IsActiveTest p) d id e off);
    capped = AllItems-put _ d id e w.capped k;
  }

pub waiting-cases :
    (o : Option Entry)
    → (waiting_entry o ≡ none)
      ⊎ ((e : Entry) × (o ≡ some e) × (is_queued e.state ≡ true) × (waiting_entry o ≡ some e))
unfolding waiting_entry
waiting-cases none = inl refl
waiting-cases (some e) = elim (Bool-cases (is_queued e.state)) [
  | inl y ↦ inr (e, refl, y, rw y)
  | inr n ↦ inl (rw n)
]

pub state_for_outcome-inactive :
    (outcome : String) → is_admitted (state_for_outcome outcome) ≡ false
unfolding state_for_outcome
state_for_outcome-inactive outcome = ground arith

enqueue-WithinCeilings :
    (c : Coordinator) (a : Arrival) (now_ms : ℕ)
    → WithinCeilings c
    → WithinCeilings (step c (arrives a now_ms))
unfolding step enqueue after_arrival
enqueue-WithinCeilings c a now_ms w =
    elim (Option-cases (get c.memory_entries (acquire_request c a).request_id)) [
      | inl e ↦
          rw (e, enqueue, after_arrival)
            (put_inactive-Within w (acquire_request c a).request_id _ refl (record {
              keyed = refl;
              family = (request_limits_caps c a).0;
              total = (request_limits_caps c a).1;
            }))
      | inr (x, e) ↦ rw (e, enqueue, after_arrival) w
    ]

release-WithinCeilings :
    (c : Coordinator) (id outcome : String) (now_ms : ℕ)
    → WithinCeilings c
    → WithinCeilings (release c id outcome now_ms)
unfolding release
release-WithinCeilings c id outcome now_ms w = elim (Option-cases (get c.memory_entries id)) [
  | inl e ↦ rw (e, release) w
  | inr (x, e) ↦
      let k : IsCapped c.env c.global_limit id x =
        AllItems-get _ c.memory_entries id x w.capped e in
      rw (e, release)
        (put_inactive-Within w id _ (state_for_outcome-inactive outcome)
          (record { keyed = k.keyed; family = k.family; total = k.total }))
]

cancel-WithinCeilings :
    (c : Coordinator) (e : Entry) (now_ms : ℕ)
    → IsCapped c.env c.global_limit e.request_id e
    → WithinCeilings c
    → WithinCeilings (cancel c e now_ms)
unfolding cancel
cancel-WithinCeilings c e now_ms k w =
    put_inactive-Within w e.request_id _ refl
      (record { keyed = refl; family = k.family; total = k.total })

renew-Within :
    (c : Coordinator) (id : String) (x : Entry) (t : Option ℕ)
    → get c.memory_entries id ≡ some x
    → WithinCeilings c
    → Within c.env c.global_limit (put c.memory_entries id (record x { lease_expires_at_ms = t }))
unfolding active_total memory_active
renew-Within c id x t e w =
    let k : IsCapped c.env c.global_limit id x = AllItems-get _ c.memory_entries id x w.capped e in
    record {
      total = omega (
        arith,
        w.total,
        put-same total-IsActiveTest c.memory_entries id (record x { lease_expires_at_ms = t }) e
            refl,
      );
      families = λ p. omega (
        arith,
        w.families p,
        put-same (provider-IsActiveTest p) c.memory_entries id
            (record x { lease_expires_at_ms = t }) e refl,
      );
      capped =
          AllItems-put _ c.memory_entries id _ w.capped
            (record { keyed = k.keyed; family = k.family; total = k.total });
    }

heartbeat-WithinCeilings :
    (c : Coordinator) (id : String) (now_ms : ℕ)
    → WithinCeilings c
    → WithinCeilings (heartbeat c id now_ms).0
unfolding heartbeat
heartbeat-WithinCeilings c id now_ms w = elim (Option-cases (get c.memory_entries id)) [
  | inl e ↦ rw (e, heartbeat) w
  | inr (x, e) ↦ elim (Bool-cases (is_admitted x.state)) [
    | inl y ↦
        rw (e, heartbeat) (rw y (renew-Within c id x (some (now_ms + c.lease_seconds * 1000)) e w))
    | inr n ↦ rw (e, heartbeat) (rw n w)
  ]
]

cleanup-WithinCeilings :
    (c : Coordinator) (now_ms : ℕ) → WithinCeilings c → WithinCeilings (memory_cleanup c now_ms)
unfolding active_total memory_active memory_cleanup
cleanup-WithinCeilings c now_ms w = record {
  total = omega (arith, w.total, count-cleanup total-IsActiveTest c now_ms);
  families = λ p. omega (arith, w.families p, count-cleanup (provider-IsActiveTest p) c now_ms);
  capped = cleanup-Capped c now_ms w.capped;
}

-- Any event keeps the ceilings.
pub step-WithinCeilings :
    (c : Coordinator) (e : Event) → WithinCeilings c → WithinCeilings (step c e)
unfolding step after_attempt after_cancel
step-WithinCeilings c (arrives a now_ms) w = enqueue-WithinCeilings c a now_ms w
step-WithinCeilings c (attempts id r clock) w = elim (waiting-cases (get c.memory_entries id)) [
  | inl n ↦ rw (n, after_attempt) w
  | inr (e, g, _, y) ↦
      let k : IsCapped c.env c.global_limit id e =
        AllItems-get _ c.memory_entries id e w.capped g in
      rw (y, after_attempt)
        (attempt-WithinCeilings c e r clock
          (subst (λ j. get c.memory_entries j ≡ some e) (sym k.keyed) g) w)
]
step-WithinCeilings c (cancels id now_ms) w = elim (waiting-cases (get c.memory_entries id)) [
  | inl n ↦ rw (n, after_cancel) w
  | inr (e, g, _, y) ↦
      let k : IsCapped c.env c.global_limit id e =
        AllItems-get _ c.memory_entries id e w.capped g in
      rw (y, after_cancel)
        (cancel-WithinCeilings c e now_ms
          (record { keyed = refl; family = k.family; total = k.total }) w)
]
step-WithinCeilings c (releases id outcome now_ms) w = release-WithinCeilings c id outcome now_ms w
step-WithinCeilings c (beats id now_ms) w = heartbeat-WithinCeilings c id now_ms w
step-WithinCeilings c (cleans now_ms) w = cleanup-WithinCeilings c now_ms w

step_settings :
    (c : Coordinator) (e : Event)
    → ((step c e).env ≡ c.env) × ((step c e).global_limit ≡ c.global_limit)
unfolding step after_arrival after_attempt after_cancel enqueue cancel release heartbeat
    memory_cleanup
step_settings c (arrives a now_ms) = (ground arith, ground arith)
step_settings c (attempts id r clock) =
    elim (Option-cases (waiting_entry (get c.memory_entries id))) [
      | inl n ↦ rw (n, after_attempt) (refl, refl)
      | inr (e, y) ↦ rw (y, after_attempt) (attempt_settings c e r clock)
    ]
step_settings c (cancels id now_ms) = (ground arith, ground arith)
step_settings c (releases id outcome now_ms) = (ground arith, ground arith)
step_settings c (beats id now_ms) = (ground arith, ground arith)
step_settings c (cleans now_ms) = (refl, refl)

pub run-Within :
    (env : Environment) (global : ℕ) (c : Coordinator) (es : List Event)
    → c.env ≡ env
    → c.global_limit ≡ global
    → WithinCeilings c
    → Within env global (run c es).memory_entries
unfolding run
run-Within env global c [] p q w = subst₂ (λ v n. Within v n c.memory_entries) p q w
run-Within env global c (e ∷ es) p q w =
    run-Within env global (step c e) es ((step_settings c e).0 ∙ p) ((step_settings c e).1 ∙ q)
      (step-WithinCeilings c e w)

pub init-WithinCeilings : (env : Environment) → WithinCeilings (init env)
unfolding init active_total memory_active count
init-WithinCeilings env = record { total = omega arith; families = λ p. omega arith; capped = tt }

-- Whatever requests arrive, wait, are cancelled, released, renewed or expire, and whatever limits
-- their callers and resolvers give: after any history of a new coordinator no more requests are
-- admitted at once than its `global_limit`, and of each provider no more than the limit that the
-- environment gives it.
pub active-le-ceilings :
    (env : Environment) (es : List Event)
    → (active_total (run (init env) es).memory_entries ≤ (init env).global_limit)
      × ((provider : String)
          → memory_active (λ e. e.provider) provider (run (init env) es).memory_entries
            ≤ provider_limit env provider)
unfolding init
active-le-ceilings env es =
    let w =
      run-Within env (init env).global_limit (init env) es refl refl (init-WithinCeilings env) in
    (w.total, w.families)
