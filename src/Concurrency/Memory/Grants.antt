-- ===== src/Concurrency/Memory/Grants.antt =====
-- What an admission guarantees, and when one is made.
use turtle_chat.Prelude.{
  ℕ, ◌≤◌, ◌<◌, ◌≡◌, refl, sym, ◌∙◌, String, Bool, true, false, some, arith, string_eq, ap, ==_refl,
  ◌≢◌,
}
use turtle_chat.Dict.{get, put, count}
use mathlib.Core.Path.{subst₂}
use turtle_chat.Dict.Laws.{get-put}
use turtle_chat.Dict.Counts.{count-put}
use turtle_chat.Concurrency.Entry.{Entry, Entries, Coordinator, is_queued}
use turtle_chat.Concurrency.Limits.{Resolved}
use turtle_chat.Concurrency.Memory.{
  Clock, granted, active_total, memory_active, can_admit, decide, attempt, memory_cleanup, write,
  has_earlier_rival,
}
use turtle_chat.Concurrency.Memory.Admission.{Admissible, can_admit-Admissible}
use turtle_chat.Concurrency.Memory.Ceilings.{refreshed, admitted_entry}
use turtle_chat.Concurrency.Memory.Rivals.{is_rival, no_rival-before}

-- The room that a lease leaves: with it, no limit of the entry is exceeded.
pub record WithinLimits (e : Entry) (d : Entries) : Type 0 where
  pub user : memory_active (λ x. x.user_id) e.user_id d ≤ e.limits.user
  pub group : memory_active (λ x. x.group_id) e.group_id d ≤ e.limits.group
  pub account_pool :
      memory_active (λ x. x.account_pool_id) e.account_pool_id d ≤ e.limits.account_pool
  pub provider : memory_active (λ x. x.provider) e.provider d ≤ e.limits.provider
  pub global : active_total d ≤ e.limits.global

-- No entry that still waits came earlier and shares the user, the group or the account pool.
pub record IsServedInTurn (e : Entry) (d : Entries) : Type 0 where
  pub at_key :
      (k : String) (item : Entry)
      → get d k ≡ some item
      → is_queued item.state ≡ true
      → item.sequence < e.sequence
      → (item.user_id ≢ e.user_id)
        × (item.group_id ≢ e.group_id)
        × (item.account_pool_id ≢ e.account_pool_id)

decide-granted :
    (c : Coordinator) (e : Entry) (clock : Clock) (e' : Entry)
    → (decide c e clock).1 ≡ granted e'
    → (can_admit e c.memory_entries ≡ true)
      × (e' ≡ admitted_entry c e clock)
      × ((decide c e clock).0.memory_entries
          ≡ put c.memory_entries e.request_id (admitted_entry c e clock))
unfolding decide
decide-granted c e clock e' h = ground arith

-- One more admission takes no count past a limit that it was below.
put-le-limit :
    (p : Entry → Bool) (d : Entries) (k : String) (e : Entry) (limit : ℕ)
    → count p d < limit
    → count p (put d k e) ≤ limit
put-le-limit p d k e limit h = ground (arith, count-put p d k e)

module _ (e : Entry) (d : Entries) (k : String) (e' : Entry) where
  put-WithinLimits : Admissible e d → WithinLimits e (put d k e')
  unfolding active_total memory_active
  put-WithinLimits a = record {
    user = put-le-limit _ d k e' _ a.user;
    group = put-le-limit _ d k e' _ a.group;
    account_pool = put-le-limit _ d k e' _ a.account_pool;
    provider = put-le-limit _ d k e' _ a.provider;
    global = put-le-limit _ d k e' _ a.global;
  }

abbrev Apart : Entry → Entry → Type 0
Apart item e =
    (item.user_id ≢ e.user_id)
    × (item.group_id ≢ e.group_id)
    × (item.account_pool_id ≢ e.account_pool_id)

-- The same statement for two entries of one identity.
limits-WithinLimits :
    (e x : Entry) (d : Entries)
    → x.limits ≡ e.limits
    → x.user_id ≡ e.user_id
    → x.group_id ≡ e.group_id
    → x.account_pool_id ≡ e.account_pool_id
    → x.provider ≡ e.provider
    → WithinLimits e d
    → WithinLimits x d
limits-WithinLimits e x d l u g a p w = record {
  user = rw (l, u) w.user;
  group = rw (l, g) w.group;
  account_pool = rw (l, a) w.account_pool;
  provider = rw (l, p) w.provider;
  global = rw l w.global;
}

in_turn :
    (e item : Entry)
    → is_rival e item ≡ false
    → is_queued item.state ≡ true
    → item.sequence < e.sequence
    → Apart item e
in_turn e item h q s = (
  λ p. ground (arith, (string_eq.same_iff item.user_id e.user_id).1 p),
  λ p. ground (arith, (string_eq.same_iff item.group_id e.group_id).1 p),
  λ p. ground (arith, (string_eq.same_iff item.account_pool_id e.account_pool_id).1 p),
)

decide-grants :
    (c : Coordinator) (e : Entry) (clock : Clock) (e' : Entry)
    → (decide c e clock).1 ≡ granted e'
    → WithinLimits e' (decide c e clock).0.memory_entries
      × (get (decide c e clock).0.memory_entries e.request_id ≡ some e')
      × (has_earlier_rival e c.memory_entries ≡ false)
      × (e' ≡ admitted_entry c e clock)
decide-grants c e clock e' h =
    let g = decide-granted c e clock e' h in
    let a = can_admit-Admissible e c.memory_entries g.0 in
    let new : Entry = admitted_entry c e clock in
    (
      subst₂ (λ x d. WithinLimits x d) (sym g.1) (sym g.2)
          (limits-WithinLimits e new _ refl refl refl refl refl
            (put-WithinLimits e c.memory_entries e.request_id new a)),
      ap (λ d. get d e.request_id) g.2
          ∙ get-put c.memory_entries e.request_id e.request_id new
          ∙ (rw (==_refl e.request_id) (ap some (sym g.1))),
      a.no_rival,
      g.1,
    )

module _ (c : Coordinator) (e : Entry) (r : Resolved) (clock : Clock) (e' : Entry) where
  -- If a round of the waiting loop of `_acquire_memory` admits a request, then afterwards its
  -- user, its group, its account pool, its provider and the process have no more admitted
  -- requests than the limits in the lease, its entry is stored as the lease says, and no request
  -- that still waited with an earlier number had the same user, group or account pool.
  pub attempt-granted :
      get c.memory_entries e.request_id ≡ some e
      → (attempt c e (some r) clock).1 ≡ granted e'
      → WithinLimits e' (attempt c e (some r) clock).0.memory_entries
        × (get (attempt c e (some r) clock).0.memory_entries e.request_id ≡ some e')
        × IsServedInTurn e c.memory_entries
  unfolding attempt
  attempt-granted g h =
      let c' : Coordinator = memory_cleanup (write c (refreshed c e r)) clock.now_ms in
      let u = decide-grants c' (refreshed c e r) clock e' h in
      (
        u.0,
        u.1,
        record {
          at_key = λ k item at q s.
              in_turn (refreshed c e r) item
                (no_rival-before c e (refreshed c e r) clock.now_ms k item refl refl g u.2 at) q s;
        },
      )
