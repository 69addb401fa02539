-- ===== src/Dict/Counts.antt =====
-- How writes change the number of values that pass a test.
use turtle_chat.Prelude.{
  ℕ, ◌+◌, ◌≤◌, ◌≡◌, refl, Bool, true, Option, none, some, [], ◌∷◌, arith, Keyed, ◌==◌, to_nat,
  count_of, Bool-cases, inl, inr,
}
use turtle_chat.Dict.{Dict, get, put, pop, sweep, values, count}

-- The number that a key adds to a count.
abbrev pub weight {ℓ} : {V : Type ℓ} → (V → Bool) → Option V → ℕ
weight p none = 0
weight p (some v) = to_nat (p v)

module _ {ℓ} {K V : Type ℓ} ⦃e : Keyed K⦄ (p : V → Bool) where
  pub count-put :
      (d : Dict K V) (k : K) (v : V)
      → count p (put d k v) + weight p (get d k) ≡ count p d + to_nat (p v)
  unfolding count put get
  count-put [] k v = omega arith
  count-put ((i, w) ∷ d) k v = elim (Bool-cases (i == k)) [
    | inl h ↦ rw h (omega arith)
    | inr h ↦ rw h (omega (arith, count-put d k v))
  ]

  pub count-pop : (d : Dict K V) (k : K) → count p (pop d k) ≤ count p d
  unfolding count pop
  count-pop [] k = omega arith
  count-pop ((i, w) ∷ d) k = elim (Bool-cases (i == k)) [
    | inl h ↦ rw h (omega (arith, count-pop d k))
    | inr h ↦ rw h (omega (arith, count-pop d k))
  ]

  pub count-pop-get : (d : Dict K V) (k : K) → count p (pop d k) + weight p (get d k) ≤ count p d
  unfolding count pop get
  count-pop-get [] k = omega arith
  count-pop-get ((i, w) ∷ d) k = elim (Bool-cases (i == k)) [
    | inl h ↦ rw h (omega (arith, count-pop d k))
    | inr h ↦ rw h (omega (arith, count-pop-get d k))
  ]

  pub weight-le-count : (d : Dict K V) (k : K) → weight p (get d k) ≤ count p d
  unfolding count get
  weight-le-count [] k = omega arith
  weight-le-count ((i, w) ∷ d) k = elim (Bool-cases (i == k)) [
    | inl h ↦ rw h (omega arith)
    | inr h ↦ rw h (omega (arith, weight-le-count d k))
  ]

module _ {ℓ} {K V : Type ℓ} (p : V → Bool) (f : V → Option V) where
  -- A sweep whose rewriting adds nothing to the test adds nothing to the count.
  pub count-sweep :
      (d : Dict K V) → ((v : V) → weight p (f v) ≤ to_nat (p v)) → count p (sweep f d) ≤ count p d
  unfolding count sweep
  count-sweep [] h = omega arith
  count-sweep ((k, v) ∷ d) h = ground (arith, h v, count-sweep d h)

  pub count-sweep-none : (d : Dict K V) → ((v : V) → weight p (f v) ≡ 0) → count p (sweep f d) ≡ 0
  unfolding count sweep
  count-sweep-none [] h = refl
  count-sweep-none ((k, v) ∷ d) h = ground (arith, h v, count-sweep-none d h)

module _ {ℓ} {K V : Type ℓ} (p q : V → Bool) where
  pub count_mono : (d : Dict K V) → ((v : V) → p v ≡ true → q v ≡ true) → count p d ≤ count q d
  unfolding count
  count_mono [] h = omega arith
  count_mono ((k, v) ∷ d) h = ground (arith, h v, count_mono d h)

module _ {ℓ} {K V : Type ℓ} (p : V → Bool) where
  pub count_of-values : (d : Dict K V) → count_of p (values d) ≡ count p d
  unfolding count count_of values
  count_of-values [] = refl
  count_of-values ((k, v) ∷ d) = omega (arith, count_of-values d)
