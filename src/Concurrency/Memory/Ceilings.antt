-- ===== src/Concurrency/Memory/Ceilings.antt =====
-- The process ceilings: no history admits more requests at once than `global_limit` allows, nor
-- more of a provider than its environment variable allows.
use turtle_chat.Prelude.{
  ℕ, ◌+◌, ◌*◌, ◌≤◌, ◌<◌, ◌≡◌, refl, String, Bool, true, some, arith, to_nat, string_eq, ◌==◌, inl,
  inr, Bool-cases, ==_eq,
}
use mathlib.Core.Path.{subst}
use turtle_chat.Dict.{get, count}
use turtle_chat.Dict.Items.{AllItems, AllItems-put, AllItems-sweep}
use turtle_chat.Concurrency.Entry.{
  Environment, Limits, EntryState, Entry, Entries, Coordinator, provider_limit,
}
use turtle_chat.Concurrency.Limits.{
  Resolved, no_resolver, capacity, capacities, refresh_dynamic_limits, request_limits,
}
use turtle_chat.Concurrency.Memory.{
  active_total, memory_active, cleanup_entry, expire_lease, forget_completed, memory_cleanup,
  can_admit, decide, attempt, Clock, write,
}
use turtle_chat.Concurrency.Memory.Admission.{can_admit-Admissible}
use turtle_chat.Concurrency.Memory.Counts.{
  IsActiveTest, provider-IsActiveTest, total-IsActiveTest, put-same, put-inactive, put-any,
  count-cleanup,
}
use turtle_chat.Concurrency.Memory.Trace.{Arrival, acquire_request}

-- What every entry satisfies: it stands under its identifier, and its limits are capped.
pub record IsCapped (env : Environment) (global : ℕ) (k : String) (e : Entry) : Type 0 where
  pub keyed : e.request_id ≡ k
  pub family : e.limits.provider ≤ provider_limit env e.provider
  pub total : e.limits.global ≤ global

abbrev pub Capped : Coordinator → Type 0
Capped c = AllItems (IsCapped c.env c.global_limit) c.memory_entries

pub request_limits_caps :
    (c : Coordinator) (a : Arrival)
    → ((acquire_request c a).limits.provider ≤ provider_limit c.env (acquire_request c a).provider)
      × ((acquire_request c a).limits.global ≤ c.global_limit)
unfolding acquire_request request_limits
request_limits_caps c a = omega arith

pub refresh_caps :
    (c : Coordinator) (l : Limits) (provider : String) (r : Resolved)
    → l.provider ≤ provider_limit c.env provider
    → l.global ≤ c.global_limit
    → ((refresh_dynamic_limits c l provider r).provider ≤ provider_limit c.env provider)
      × ((refresh_dynamic_limits c l provider r).global ≤ c.global_limit)
unfolding refresh_dynamic_limits
refresh_caps c l provider no_resolver h g = (h, g)
refresh_caps c l provider (capacity v) h g = (h, g)
refresh_caps c l provider (capacities a b d) h g = ground arith

pub cleanup-IsCapped :
    (env : Environment) (global now_ms ttl_ms : ℕ) (k : String) (v w : Entry)
    → cleanup_entry now_ms ttl_ms v ≡ some w
    → IsCapped env global k v
    → IsCapped env global k w
unfolding cleanup_entry expire_lease forget_completed
cleanup-IsCapped env global now_ms ttl_ms k v w h q = ground arith

pub cleanup-Capped : (c : Coordinator) (now_ms : ℕ) → Capped c → Capped (memory_cleanup c now_ms)
unfolding memory_cleanup
cleanup-Capped c now_ms a =
    AllItems-sweep _ _ c.memory_entries (cleanup-IsCapped c.env c.global_limit now_ms _) a

pub put-Capped :
    (c : Coordinator) (e : Entry)
    → e.limits.provider ≤ provider_limit c.env e.provider
    → e.limits.global ≤ c.global_limit
    → Capped c
    → Capped (write c e)
put-Capped c e h g a =
    AllItems-put _ c.memory_entries e.request_id e a
      (record { keyed = refl; family = h; total = g })

-- Where the counted test holds of the admitted entry, there must be room for it.
abbrev pub admitted_entry : Coordinator → Entry → Clock → Entry
admitted_entry c e clock = record e {
  state = EntryState.admitted;
  admitted_at_ms = some clock.admitted_at;
  lease_expires_at_ms = some (clock.admitted_at + c.lease_seconds * 1000);
}

module _ {p : Entry → Bool} (t : IsActiveTest p) (bound : ℕ) where
  decide-le :
      (c : Coordinator) (e : Entry) (clock : Clock)
      → count p c.memory_entries ≤ bound
      → (can_admit e c.memory_entries ≡ true
          → count p c.memory_entries + to_nat (p (admitted_entry c e clock)) ≤ bound)
      → count p (decide c e clock).0.memory_entries ≤ bound
  unfolding decide
  decide-le c e clock h room = elim (Bool-cases (can_admit e c.memory_entries)) [
    | inl y ↦
        rw y (
          omega (arith, put-any t c.memory_entries e.request_id (admitted_entry c e clock), room y))
    | inr n ↦ rw n (
        ground (
          arith,
          put-inactive t c.memory_entries e.request_id (record e {
            state = EntryState.timed_out;
            outcome = some "queue_timeout";
            completed_at_ms = some clock.completed_at;
          }),
        ))
  ]

abbrev pub refreshed : Coordinator → Entry → Resolved → Entry
refreshed c e r = record e { limits = refresh_dynamic_limits c e.limits e.provider r }

module _ {p : Entry → Bool} (t : IsActiveTest p) (bound : ℕ) where
  attempt-le :
      (c : Coordinator) (e : Entry) (r : Resolved) (clock : Clock)
      → get c.memory_entries e.request_id ≡ some e
      → count p c.memory_entries ≤ bound
      → ((d : Entries)
          → count p d ≤ bound
          → can_admit (refreshed c e r) d ≡ true
          → count p d + to_nat (p (admitted_entry c (refreshed c e r) clock)) ≤ bound)
      → count p (attempt c e (some r) clock).0.memory_entries ≤ bound
  unfolding attempt memory_cleanup
  attempt-le c e r clock g h room =
      let below : count p (memory_cleanup (write c (refreshed c e r)) clock.now_ms).memory_entries
          ≤ bound =
        omega (
          arith,
          count-cleanup t (write c (refreshed c e r)) clock.now_ms,
          put-same t c.memory_entries e.request_id (refreshed c e r) g (t.any_limits e _),
        ) in
      decide-le t bound (memory_cleanup (write c (refreshed c e r)) clock.now_ms) (refreshed c e r)
        clock below (room _ below)

pub attempt-total :
    (c : Coordinator) (e : Entry) (r : Resolved) (clock : Clock)
    → get c.memory_entries e.request_id ≡ some e
    → IsCapped c.env c.global_limit e.request_id e
    → active_total c.memory_entries ≤ c.global_limit
    → active_total (attempt c e (some r) clock).0.memory_entries ≤ c.global_limit
unfolding active_total
attempt-total c e r clock g k h =
    attempt-le total-IsActiveTest c.global_limit c e r clock g h λ d _ y. omega (
      arith,
      (can_admit-Admissible (refreshed c e r) d y).global,
      (refresh_caps c e.limits e.provider r k.family k.total).1,
    )

pub room_for_family :
    (c : Coordinator) (e : Entry) (r : Resolved) (d : Entries) (x : String)
    → e.provider ≡ x
    → IsCapped c.env c.global_limit e.request_id e
    → memory_active (λ x. x.provider) e.provider d < (refreshed c e r).limits.provider
    → memory_active (λ x. x.provider) x d + 1 ≤ provider_limit c.env x
room_for_family c e r d x q k h =
    subst (λ x. memory_active (λ x. x.provider) x d + 1 ≤ provider_limit c.env x) q
      (omega (arith, (refresh_caps c e.limits e.provider r k.family k.total).0, h))

pub attempt-families :
    (c : Coordinator) (e : Entry) (r : Resolved) (clock : Clock) (x : String)
    → get c.memory_entries e.request_id ≡ some e
    → IsCapped c.env c.global_limit e.request_id e
    → memory_active (λ e. e.provider) x c.memory_entries ≤ provider_limit c.env x
    → memory_active (λ e. e.provider) x (attempt c e (some r) clock).0.memory_entries
      ≤ provider_limit c.env x
unfolding memory_active
attempt-families c e r clock x g k h =
    attempt-le (provider-IsActiveTest x) (provider_limit c.env x) c e r clock g h λ d below y.
      elim (Bool-cases (e.provider == x)) [
        | inl same ↦ rw same (
            room_for_family c e r d x (==_eq e.provider x same) k
              (can_admit-Admissible (refreshed c e r) d y).provider)
        | inr other ↦ rw other (omega arith)
      ]
