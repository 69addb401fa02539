-- ===== src/Dict/Laws.antt =====
-- What a read of a dictionary returns after a write.
use turtle_chat.Prelude.{
  Option, true, false, Bool-cases, inl, inr, some_inj, ◌≡◌, refl, none, some, [], ◌∷◌, arith, Keyed,
  ◌==◌, if◌then◌else◌,
}
use turtle_chat.Dict.{Dict, get, put, pop, sweep, keep}

module _ {ℓ} {K V : Type ℓ} ⦃e : Keyed K⦄ where
  pub get-put :
      (d : Dict K V) (k j : K) (v : V) → get (put d k v) j ≡ (if k == j then some v else get d j)
  unfolding get put
  get-put [] k j v = refl
  get-put ((i, w) ∷ d) k j v =
      ground (arith, e.same_iff i k, e.same_iff i j, e.same_iff k j, get-put d k j v)

  pub put_twice : (d : Dict K V) (k : K) (v w : V) → put (put d k v) k w ≡ put d k w
  unfolding put
  put_twice [] k v w = rw ((e.same_iff k k).1 refl) refl
  put_twice ((i, x) ∷ d) k v w = elim (Bool-cases (i == k)) [
    | inl y ↦ rw y (rw y refl)
    | inr n ↦ rw n (rw n (rw (put_twice d k v w) refl))
  ]

  pub get-pop : (d : Dict K V) (k j : K) → get (pop d k) j ≡ (if k == j then none else get d j)
  unfolding get pop
  get-pop [] k j = ground arith
  get-pop ((i, w) ∷ d) k j =
      ground (arith, e.same_iff i k, e.same_iff i j, e.same_iff k j, get-pop d k j)

  pub get-pop_self : (d : Dict K V) (k : K) → get (pop d k) k ≡ none
  get-pop_self d k = rw (get-pop d k k) (rw ((e.same_iff k k).1 refl) refl)

  pub get-pop-none : (d : Dict K V) (k j : K) → get d j ≡ none → get (pop d k) j ≡ none
  get-pop-none d k j h = rw (get-pop d k j, h) (ground arith)

  pub get-put-none :
      (d : Dict K V) (k j : K) (v : V)
      → (k == j) ≡ false
      → get d j ≡ none
      → get (put d k v) j ≡ none
  get-put-none d k j v n h = rw (get-put d k j v, n) h

  pub get-sweep-none :
      (f : V → Option V) (d : Dict K V) (k : K) → get d k ≡ none → get (sweep f d) k ≡ none
  unfolding get sweep
  get-sweep-none f [] k h = refl
  get-sweep-none f ((i, x) ∷ d) k h = elim (Bool-cases (i == k)) [
    | inl t ↦ cc (rw t at h)
    | inr n ↦ unkept (f x) n (get-sweep-none f d k (rw n at h))
  ]
    where
      unkept :
          (o : Option V)
          → (i == k) ≡ false
          → get (sweep f d) k ≡ none
          → get (keep i o (sweep f d)) k ≡ none
      unkept none n g = g
      unkept (some y) n g = rw n g

  pub get-sweep :
      (f : V → Option V) (d : Dict K V) (k : K) (v w : V)
      → get d k ≡ some v
      → f v ≡ some w
      → get (sweep f d) k ≡ some w
  unfolding get sweep
  get-sweep f [] k v w h s = cc
  get-sweep f ((i, x) ∷ d) k v w h s = elim (Bool-cases (i == k)) [
    | inl y ↦ sweep_first (some_inj (rw y at h)) y
    | inr n ↦ sweep_later (f x) n (get-sweep f d k v w (rw n at h) s)
  ]
    where
      sweep_first : x ≡ v → (i == k) ≡ true → get (sweep f ((i, x) ∷ d)) k ≡ some w
      sweep_first q y = rw (q, s) (rw y)

      sweep_later :
          (o : Option V)
          → (i == k) ≡ false
          → get (sweep f d) k ≡ some w
          → get (keep i o (sweep f d)) k ≡ some w
      sweep_later none n r = r
      sweep_later (some u) n r = rw n r
