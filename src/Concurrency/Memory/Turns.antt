-- ===== src/Concurrency/Memory/Turns.antt =====
-- The next request in line is admitted, and a lease that ends frees its place.
use turtle_chat.Prelude.{
  ℕ, ◌+◌, ◌≤◌, ◌<◌, ◌≡◌, refl, ◌∙◌, String, Bool, true, false, some, [], ◌∷◌, arith, string_eq,
  any_of, take_text, ==_refl,
}
use turtle_chat.Dict.{get, put, count, values}
use turtle_chat.Dict.Counts.{count-put}
use turtle_chat.Dict.Items.{AllItems, AllItems-put, AllItems-sweep}
use turtle_chat.Concurrency.Entry.{Entry, Entries, Coordinator, is_admitted}
use turtle_chat.Concurrency.Limits.{Resolved}
use turtle_chat.Concurrency.Memory.{
  Clock, granted, active_total, memory_active, can_admit, decide, attempt, memory_cleanup, write,
  release, state_for_outcome, cleanup_entry, expire_lease, forget_completed,
}
use turtle_chat.Concurrency.Memory.Admission.{Admissible, Admissible-can_admit}
use turtle_chat.Concurrency.Memory.Counts.{
  IsActiveTest, active_where-IsActiveTest, total-IsActiveTest, put-same, count-cleanup,
}
use turtle_chat.Concurrency.Memory.Ceilings.{refreshed, admitted_entry}
use turtle_chat.Concurrency.Memory.Rivals.{is_rival, has_earlier_rival_lem}

-- No entry that waits is an earlier rival of `e`.
abbrev pub IsNext : Entry → Entries → Type 0
IsNext e d = AllItems (λ k item. is_rival e item ≡ false) d

any_of-none :
    (p : Entry → Bool) (d : Entries) → AllItems (λ k v. p v ≡ false) d → any_of p (values d) ≡ false
unfolding any_of values
any_of-none p [] a = refl
any_of-none p ((k, v) ∷ d) a = ground (arith, any_of-none p d a.1)

cleanup-not_rival :
    (e : Entry) (now_ms ttl_ms : ℕ) (k : String) (v w : Entry)
    → cleanup_entry now_ms ttl_ms v ≡ some w
    → is_rival e v ≡ false
    → is_rival e w ≡ false
unfolding cleanup_entry expire_lease forget_completed
cleanup-not_rival e now_ms ttl_ms k v w h r = ground arith

-- The limits of `e` leave room for one more.
pub record HasRoom (e : Entry) (d : Entries) : Type 0 where
  pub user : memory_active (λ x. x.user_id) e.user_id d < e.limits.user
  pub group : memory_active (λ x. x.group_id) e.group_id d < e.limits.group
  pub account_pool :
      memory_active (λ x. x.account_pool_id) e.account_pool_id d < e.limits.account_pool
  pub provider : memory_active (λ x. x.provider) e.provider d < e.limits.provider
  pub global : active_total d < e.limits.global

module _ (c : Coordinator) (e : Entry) (r : Resolved) (now_ms : ℕ)
    (g : get c.memory_entries e.request_id ≡ some e) where
  count-le :
      {p : Entry → Bool}
      → IsActiveTest p
      → count p (memory_cleanup (write c (refreshed c e r)) now_ms).memory_entries
        ≤ count p c.memory_entries
  count-le t = omega (
    arith,
    count-cleanup t (write c (refreshed c e r)) now_ms,
    put-same t c.memory_entries e.request_id (refreshed c e r) g (t.any_limits e _),
  )

  still-IsNext :
      IsNext e c.memory_entries
      → IsNext e (memory_cleanup (write c (refreshed c e r)) now_ms).memory_entries
  unfolding memory_cleanup
  still-IsNext n =
      AllItems-sweep _ _ (write c (refreshed c e r)).memory_entries (cleanup-not_rival e now_ms _)
        (AllItems-put _ c.memory_entries e.request_id (refreshed c e r) n (ground arith))

  next-Admissible :
      IsNext e c.memory_entries
      → HasRoom (refreshed c e r) c.memory_entries
      → Admissible
          (refreshed c e r)
          (memory_cleanup (write c (refreshed c e r)) now_ms).memory_entries
  unfolding memory_active active_total
  next-Admissible n h = record {
    no_rival = has_earlier_rival_lem (refreshed c e r) _ ∙ any_of-none (is_rival e) _ after;
    user = omega (
      arith,
      h.user,
      count-le (active_where-IsActiveTest (λ x. x.user_id) e.user_id (λ x l. refl) (λ x t. refl)),
    );
    group = omega (
      arith,
      h.group,
      count-le (active_where-IsActiveTest (λ x. x.group_id) e.group_id (λ x l. refl) (λ x t. refl)),
    );
    account_pool = omega (
      arith,
      h.account_pool,
      count-le (
          active_where-IsActiveTest (λ x. x.account_pool_id) e.account_pool_id (λ x l. refl)
            (λ x t. refl)),
    );
    provider = omega (
      arith,
      h.provider,
      count-le (active_where-IsActiveTest (λ x. x.provider) e.provider (λ x l. refl) (λ x t. refl)),
    );
    global = omega (arith, h.global, count-le total-IsActiveTest);
  }
    where
      after : IsNext e (memory_cleanup (write c (refreshed c e r)) now_ms).memory_entries
      after = still-IsNext n

decide-next :
    (c : Coordinator) (e : Entry) (clock : Clock)
    → can_admit e c.memory_entries ≡ true
    → (decide c e clock).1 ≡ granted (admitted_entry c e clock)
unfolding decide
decide-next c e clock h = rw h

module _ (c : Coordinator) (e : Entry) (r : Resolved) (clock : Clock) where
  -- A waiting request that no earlier waiting request of its user, group or account pool precedes,
  -- and whose refreshed limits leave room for one more, is admitted by its next round, whatever
  -- the clocks show and although its deadline may have passed.
  pub attempt_next :
      get c.memory_entries e.request_id ≡ some e
      → IsNext e c.memory_entries
      → HasRoom (refreshed c e r) c.memory_entries
      → (attempt c e (some r) clock).1 ≡ granted (admitted_entry c (refreshed c e r) clock)
  unfolding attempt memory_cleanup
  attempt_next g n h =
      decide-next (memory_cleanup (write c (refreshed c e r)) clock.now_ms) (refreshed c e r) clock
        (Admissible-can_admit _ _ (next-Admissible c e r clock.now_ms g n h))

release-put :
    (c : Coordinator) (id outcome : String) (now_ms : ℕ) (e : Entry)
    → get c.memory_entries id ≡ some e
    → (e' : Entry) × (is_admitted e'.state ≡ false)
      × ((release c id outcome now_ms).memory_entries ≡ put c.memory_entries id e')
unfolding release state_for_outcome
release-put c id outcome now_ms e g = (
  record e {
    state = state_for_outcome outcome;
    outcome = some (take_text 64 outcome);
    completed_at_ms = some now_ms;
  },
  ground arith,
  rw (g, release) refl,
)

count-release :
    {p : Entry → Bool} (t : IsActiveTest p) (c : Coordinator) (id outcome : String) (now_ms : ℕ)
    (e : Entry)
    → get c.memory_entries id ≡ some e
    → p e ≡ true
    → count p (release c id outcome now_ms).memory_entries + 1 ≡ count p c.memory_entries
count-release {p} t c id outcome now_ms e g h =
    let (e', off, q) = release-put c id outcome now_ms e g in
    ground (arith, q, count-put p c.memory_entries id e', t.admitted_only e' off)

-- Releasing an admitted request frees exactly one place of the process, of its user, of its group,
-- of its account pool and of its provider, whatever the outcome is called.
pub release_frees :
    (c : Coordinator) (id outcome : String) (now_ms : ℕ) (e : Entry)
    → get c.memory_entries id ≡ some e
    → is_admitted e.state ≡ true
    → let d = (release c id outcome now_ms).memory_entries in
      (active_total d + 1 ≡ active_total c.memory_entries)
      × (memory_active (λ x. x.user_id) e.user_id d + 1
          ≡ memory_active (λ x. x.user_id) e.user_id c.memory_entries)
      × (memory_active (λ x. x.group_id) e.group_id d + 1
          ≡ memory_active (λ x. x.group_id) e.group_id c.memory_entries)
      × (memory_active (λ x. x.account_pool_id) e.account_pool_id d + 1
          ≡ memory_active (λ x. x.account_pool_id) e.account_pool_id c.memory_entries)
      × (memory_active (λ x. x.provider) e.provider d + 1
          ≡ memory_active (λ x. x.provider) e.provider c.memory_entries)
unfolding active_total memory_active
release_frees c id outcome now_ms e g h = (
  count-release total-IsActiveTest c id outcome now_ms e g h,
  count-release (active_where-IsActiveTest (λ x. x.user_id) e.user_id (λ x l. refl) (λ x t. refl)) c
      id outcome now_ms e g (rw h (==_refl e.user_id)),
  count-release (active_where-IsActiveTest (λ x. x.group_id) e.group_id (λ x l. refl) (λ x t. refl))
      c id outcome now_ms e g (rw h (==_refl e.group_id)),
  count-release
      (active_where-IsActiveTest (λ x. x.account_pool_id) e.account_pool_id (λ x l. refl)
        (λ x t. refl))
      c id outcome now_ms e g (rw h (==_refl e.account_pool_id)),
  count-release (active_where-IsActiveTest (λ x. x.provider) e.provider (λ x l. refl) (λ x t. refl))
      c id outcome now_ms e g (rw h (==_refl e.provider)),
)
