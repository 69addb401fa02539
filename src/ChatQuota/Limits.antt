-- ===== src/ChatQuota/Limits.antt =====
-- What a window holds after a reservation (branding/open-webui/turtle_chat/store.py).
use turtle_chat.Prelude.{
  ℕ, zero, suc, ◌+◌, ◌≤◌, ◌≡◌, refl, sym, ◌∙◌, String, true, not, Option, none, some, string_eq,
  pair_eq, List, [], ◌∷◌, ◌++◌, arith, if_holds, length, ltb, sum_of-snoc, Bool-cases, inl, inr,
}
use mathlib.Core.Path.{subst}
use turtle_chat.Dict.{Dict, get}
use turtle_chat.ChatQuota.Rules.{Rule, is_known, selection_by_key, has}
use turtle_chat.ChatQuota.Usage.{
  Tables, Status, cleanup_stale, model_statuses, window_counts, ensure_window, committed_units,
  reserved_units,
}
use turtle_chat.ChatQuota.Reserve.{
  Order, Walk, finds, exhausted, cycles, missing, unfinished, walk, try_lane, try_open, is_allowed,
  conclude, reserve, Outcome, reserves, in_model, usage_row,
}
use turtle_chat.ChatQuota.Chains.{walk_status-ends}
use turtle_chat.ChatQuota.Statuses.{Follows, model_statuses-Follows}

abbrev units_in : Tables → String → String → String → ℕ
units_in t user key window_id =
    (window_counts t user key window_id).0 + (window_counts t user key window_id).1

-- Room in a window under a limit, for `more` units; without a limit there is always room.
abbrev pub RoomUnder : Tables → String → String → ℕ → Option String → Option ℕ → Type 0
RoomUnder t user key more quota_window_id none = Unit
RoomUnder t user key more quota_window_id (some limit) =
    (window_id : String) × (quota_window_id ≡ some window_id)
    × (units_in t user key window_id + more ≤ limit)

-- The lane is open, and has room.
abbrev pub HasRoom : Tables → String → Dict String Rule → String → ℕ → Option String → Type 0
HasRoom t user rules key more quota_window_id =
    (rule : Rule) × (get rules key ≡ some rule)
    × (rule.enabled ≡ true)
    × RoomUnder t user key more quota_window_id rule.limit_count

try_open-RoomUnder :
    (o : Order) (statuses : Dict String Status) (t : Tables) (key : String) (status : Status)
    (limit : Option ℕ)
    → (try_open o statuses t key status limit).available ≡ true
    → RoomUnder
        (try_open o statuses t key status limit).tables
        o.user_id
        key
        1
        (try_open o statuses t key status limit).quota_window_id
        limit
try_open-RoomUnder o statuses t key status none y = tt
try_open-RoomUnder o statuses t key status (some limit) y =
    let w = ensure_window t o.user_id key o.now (o.draw key) in
    elim (Bool-cases (ltb (units_in w.0 o.user_id key w.1.window_id) limit)) [
      | inl b ↦ rw b (w.1.window_id, refl, ground (arith, b))
      | inr n ↦ cc (rw n at y)
    ]

try_lane-RoomUnder :
    (o : Order) (statuses : Dict String Status) (t : Tables) (key : String) (status : Status)
    → (try_lane o statuses t key status).available ≡ true
    → RoomUnder
        (try_lane o statuses t key status).tables
        o.user_id
        key
        1
        (try_lane o statuses t key status).quota_window_id
        status.limit_count
try_lane-RoomUnder o statuses t key status y = elim (Bool-cases status.available) [
  | inl b ↦ rw b (try_open-RoomUnder o statuses t key status status.limit_count (rw b at y))
  | inr n ↦ cc (rw n at y)
]

-- What the loop finds has room for one more.
abbrev IsRoomy : String → Dict String Rule → Walk → Type 0
IsRoomy user rules (finds key tried) = HasRoom tried.tables user rules key 1 tried.quota_window_id
IsRoomy user rules w = Unit

module _ (o : Order) (statuses : Dict String Status) (rules : Dict String Rule)
    (follow : (key : String) (status : Status)
      → get statuses key ≡ some status
      → (rule : Rule) × (get rules key ≡ some rule) × Follows status rule) where
  walk-IsRoomy :
      (fuel : ℕ) (t : Tables) (visited : List String) (resets : List ℕ) (key : String)
      → is_allowed (get statuses key) ≡ true
      → IsRoomy o.user_id rules (walk o statuses fuel t visited resets key)
  unfolding walk
  walk-IsRoomy zero t visited resets key a = tt
  walk-IsRoomy (suc fuel) t visited resets key a =
      if_holds (IsRoomy o.user_id rules) (has key visited) (λ _. tt)
        λ _.
          walk_status-ends o statuses (IsRoomy o.user_id rules) t resets key (get statuses key)
            (λ t' resets' fallback. walk o statuses fuel t' (key ∷ visited) resets' fallback)
            (λ status g y.
              let r = follow key status g in
              (
                r.0,
                r.1,
                sym r.2.0 ∙ subst (λ s. is_allowed s ≡ true) g a,
                subst
                    (RoomUnder (try_lane o statuses t key status).tables o.user_id key 1
                      (try_lane o statuses t key status).quota_window_id)
                    r.2.1 (try_lane-RoomUnder o statuses t key status y),
              ))
            (λ reset_at. tt) (λ g. tt)
            (λ status fallback t' resets' g e y.
              walk-IsRoomy fuel t' (key ∷ visited) resets' fallback y)

-- The units of the new row, which is one, in its window.
added-units :
    (t : Tables) (o : Order) (key window_id : String) (quota_window_id : Option String)
    → units_in
        (record t { chat_usage = t.chat_usage ++ usage_row o key quota_window_id ∷ [] })
        o.user_id
        key
        window_id
      ≤ units_in t o.user_id key window_id + 1
unfolding window_counts
added-units t o key window_id q =
    let row = usage_row o key q in
    omega (
      arith,
      sum_of-snoc (committed_units o.user_id key window_id) t.chat_usage row,
      sum_of-snoc (reserved_units o.user_id key window_id) t.chat_usage row,
      one,
      nought,
    )
  where
    one : reserved_units o.user_id key window_id (usage_row o key q) ≤ 1
    one = ground arith

    nought : committed_units o.user_id key window_id (usage_row o key q) ≡ 0
    nought = ground arith

-- What a reservation leaves: the lane is open, and within its limit.
abbrev pub IsWithin : String → Dict String Rule → Tables × Outcome → Type 0
IsWithin user rules (t, reserves row) = HasRoom t user rules row.selection_key 0 row.quota_window_id
IsWithin user rules (t, outcome) = Unit

concluded-IsWithin :
    (before : Tables) (o : Order) (rules : Dict String Rule) (w : Walk)
    → IsRoomy o.user_id rules w
    → IsWithin o.user_id rules (conclude before o w)
concluded-IsWithin before o rules (finds key tried) (rule, g, e, room) =
    (rule, g, e, kept rule.limit_count room)
  where
    kept :
        (limit : Option ℕ)
        → RoomUnder tried.tables o.user_id key 1 tried.quota_window_id limit
        → RoomUnder
            (record tried.tables {
              chat_usage = tried.tables.chat_usage ++ usage_row o key tried.quota_window_id ∷ [];
            })
            o.user_id
            key
            0
            tried.quota_window_id
            limit
    kept none r = tt
    kept (some limit) (window_id, q, l) = (
      window_id,
      q,
      omega (arith, l, added-units tried.tables o key window_id tried.quota_window_id),
    )
concluded-IsWithin before o rules (exhausted reset_at) w = tt
concluded-IsWithin before o rules cycles w = tt
concluded-IsWithin before o rules missing w = tt
concluded-IsWithin before o rules unfinished w = tt

pub reserve-IsWithin :
    (t : Tables) (rules : Dict String Rule) (o : Order)
    → IsWithin o.user_id rules (reserve t rules o)
unfolding reserve
reserve-IsWithin t rules o =
    if_holds (IsWithin o.user_id rules) (not (is_known o.requested_key)) (λ _. tt)
      λ _.
        if_holds (IsWithin o.user_id rules)
          (not (in_model o.model_id (selection_by_key o.requested_key))) (λ _. tt)
          λ _.
            if_holds (IsWithin o.user_id rules)
              (is_allowed (
                get (model_statuses (cleanup_stale t o.user_id o.now) o.user_id o.now rules).1
                  o.requested_key))
              (λ y.
                let r = model_statuses (cleanup_stale t o.user_id o.now) o.user_id o.now rules in
                concluded-IsWithin t o rules _ (
                  walk-IsRoomy o r.1 rules
                    (model_statuses-Follows (cleanup_stale t o.user_id o.now) o.user_id o.now rules)
                    (length r.1 + 1) r.0 [] [] o.requested_key y))
              (λ _. tt)
