-- ===== src/Concurrency/Memory/Counts.antt =====
-- How the stretches of code change the number of active entries, for any test that holds of
-- admitted entries only and depends on the state and the identity of an entry.
use turtle_chat.Prelude.{
  ℕ, ◌+◌, ◌*◌, ◌≤◌, ◌≡◌, refl, String, Bool, false, Option, some, arith, to_nat, string_eq,
}
use turtle_chat.Dict.{get, put, count}
use turtle_chat.Dict.Counts.{weight, count-put, count-sweep}
use turtle_chat.Concurrency.Entry.{Limits, Entry, Entries, Coordinator, is_admitted}
use turtle_chat.Concurrency.Memory.{active_where, expire_lease, cleanup_entry, memory_cleanup}

pub record IsActiveTest (p : Entry → Bool) : Type 0 where
  pub admitted_only : (e : Entry) → is_admitted e.state ≡ false → p e ≡ false
  pub any_limits : (e : Entry) (l : Limits) → p (record e { limits = l }) ≡ p e
  pub any_lease : (e : Entry) (t : Option ℕ) → p (record e { lease_expires_at_ms = t }) ≡ p e

pub active_where-IsActiveTest :
    (field : Entry → String) (value : String)
    → ((e : Entry) (l : Limits) → field (record e { limits = l }) ≡ field e)
    → ((e : Entry) (t : Option ℕ) → field (record e { lease_expires_at_ms = t }) ≡ field e)
    → IsActiveTest (active_where field value)
active_where-IsActiveTest field value f g = record {
  admitted_only = λ e h. rw h;
  any_limits = λ e l. rw (f e l);
  any_lease = λ e t. rw (g e t);
}

pub provider-IsActiveTest : (value : String) → IsActiveTest (active_where (λ e. e.provider) value)
provider-IsActiveTest value =
    active_where-IsActiveTest (λ e. e.provider) value (λ e l. refl) (λ e t. refl)

pub total-IsActiveTest : IsActiveTest (λ e. is_admitted e.state)
total-IsActiveTest = record {
  admitted_only = λ e h. h;
  any_limits = λ e l. refl;
  any_lease = λ e t. refl;
}

module _ {p : Entry → Bool} (a : IsActiveTest p) where
  pub put-same :
      (d : Entries) (k : String) {e : Entry} (e' : Entry)
      → get d k ≡ some e
      → p e' ≡ p e
      → count p (put d k e') ≤ count p d
  put-same d k e' h s = ground (arith, count-put p d k e')

  pub put-inactive :
      (d : Entries) (k : String) (e' : Entry)
      → is_admitted e'.state ≡ false
      → count p (put d k e') ≤ count p d
  put-inactive d k e' h = ground (arith, a.admitted_only e' h, count-put p d k e')

  pub put-any :
      (d : Entries) (k : String) (e' : Entry) → count p (put d k e') ≤ count p d + to_nat (p e')
  put-any d k e' = ground (arith, count-put p d k e')

  cleanup_entry-le :
      (now_ms ttl_ms : ℕ) (e : Entry) → weight p (cleanup_entry now_ms ttl_ms e) ≤ to_nat (p e)
  unfolding cleanup_entry
  cleanup_entry-le now_ms ttl_ms e = ground (arith, a.admitted_only (expire_lease now_ms e))

  pub count-cleanup :
      (c : Coordinator) (now_ms : ℕ)
      → count p (memory_cleanup c now_ms).memory_entries ≤ count p c.memory_entries
  unfolding memory_cleanup
  count-cleanup c now_ms =
      count-sweep p _ c.memory_entries (cleanup_entry-le now_ms (c.status_ttl_seconds * 1000))
