-- ===== src/Concurrency/Memory/Rivals.antt =====
-- The search for an earlier rival, without the sort and the selections that the code makes.
use turtle_chat.Prelude.{
  ℕ, ◌≡◌, refl, sym, ◌∙◌, String, Bool, true, false, Option, some, List, [], ◌∷◌, arith, string_eq,
  ◌==◌, ◌&&◌, ◌||◌, inl, inr, Bool-cases, ltb, any_of, select, ap, ==_eq, some_inj,
}
use turtle_chat.Dict.{get, put, sweep, values}
use turtle_chat.Dict.Laws.{get-put}
use turtle_chat.Dict.Items.{any_of-select, any_of-get}
use turtle_chat.Concurrency.Entry.{Entry, Entries, Coordinator, is_queued}
use turtle_chat.Concurrency.Memory.{
  has_earlier_rival, waiting, insert_by_sequence, sort_by_sequence, shares_scope, cleanup_entry,
  expire_lease, forget_completed, memory_cleanup, write,
}

any_of-insert :
    (p : Entry → Bool) (e : Entry) (xs : List Entry)
    → any_of p (insert_by_sequence e xs) ≡ (p e || any_of p xs)
unfolding any_of insert_by_sequence
any_of-insert p e [] = refl
any_of-insert p e (x ∷ xs) = ground (arith, any_of-insert p e xs)

any_of-sort : (p : Entry → Bool) (xs : List Entry) → any_of p (sort_by_sequence xs) ≡ any_of p xs
unfolding any_of sort_by_sequence
any_of-sort p [] = refl
any_of-sort p (x ∷ xs) = ground (arith, any_of-insert p x (sort_by_sequence xs), any_of-sort p xs)

-- A queued entry with an earlier number and a user, group or account pool in common.
abbrev pub is_rival : Entry → Entry → Bool
is_rival e item = is_queued item.state && (ltb item.sequence e.sequence && shares_scope e item)

pub has_earlier_rival_lem :
    (e : Entry) (d : Entries) → has_earlier_rival e d ≡ any_of (is_rival e) (values d)
unfolding has_earlier_rival waiting
has_earlier_rival_lem e d =
    any_of-select (shares_scope e) (λ item. ltb item.sequence e.sequence) (waiting d)
    ∙ any_of-sort _ (select (λ item. is_queued item.state) (values d))
    ∙ any_of-select _ (λ item. is_queued item.state) (values d)

-- A queued entry survives the cleanup as it is.
pub cleanup-queued :
    (now_ms ttl_ms : ℕ) (e : Entry)
    → is_queued e.state ≡ true
    → cleanup_entry now_ms ttl_ms e ≡ some e
unfolding cleanup_entry expire_lease forget_completed
cleanup-queued now_ms ttl_ms e h = ground arith

module _ (p : Entry → Bool) (f : Entry → Option Entry) where
  any_of-sweep :
      (d : Entries)
      → ((v : Entry) → p v ≡ true → f v ≡ some v)
      → any_of p (values d) ≡ true
      → any_of p (values (sweep f d)) ≡ true
  unfolding any_of values sweep
  any_of-sweep [] s h = h
  any_of-sweep ((k, v) ∷ d) s h = ground (arith, s v, any_of-sweep d s)

rival-queued : (e item : Entry) → is_rival e item ≡ true → is_queued item.state ≡ true
rival-queued e item h = ground arith

not_own_rival : (e item : Entry) → item.sequence ≡ e.sequence → is_rival e item ≡ false
not_own_rival e item h = ground arith

-- Without a rival after the refresh and the cleanup there was none before.
module _ (c : Coordinator) (e e' : Entry) (now_ms : ℕ) (k : String) (item : Entry) where
  rival-found :
      get (put c.memory_entries e'.request_id e') k ≡ some item
      → is_rival e' item ≡ true
      → has_earlier_rival e' (memory_cleanup (write c e') now_ms).memory_entries ≡ true
  unfolding memory_cleanup
  rival-found g r =
      has_earlier_rival_lem e' (memory_cleanup (write c e') now_ms).memory_entries
      ∙ any_of-sweep (is_rival e') _ (write c e').memory_entries
          (λ v h. cleanup-queued now_ms _ v (rival-queued e' v h))
          (any_of-get (is_rival e') (write c e').memory_entries k item g r)

  pub no_rival-before :
      e'.sequence ≡ e.sequence
      → e'.request_id ≡ e.request_id
      → get c.memory_entries e.request_id ≡ some e
      → has_earlier_rival e' (memory_cleanup (write c e') now_ms).memory_entries ≡ false
      → get c.memory_entries k ≡ some item
      → is_rival e' item ≡ false
  no_rival-before q i g none_left h = elim (Bool-cases (e'.request_id == k)) [
    | inl own ↦ not_own_rival e' item (
        ap (λ (x : Entry). x.sequence)
          (some_inj (sym h ∙ ap (get c.memory_entries) (sym (==_eq e'.request_id k own) ∙ i) ∙ g))
        ∙ sym q)
    | inr other ↦ elim (Bool-cases (is_rival e' item)) [
      | inl r ↦
          cc (none_left, rival-found (get-put c.memory_entries e'.request_id k e' ∙ (rw other h)) r)
      | inr r ↦ r
    ]
  ]
