-- ===== src/Dict/Totals.antt =====
-- How writes change a sum over the values.
use turtle_chat.Prelude.{
  ℕ, ◌+◌, ◌≤◌, ◌≡◌, Option, none, some, [], ◌∷◌, arith, Keyed, ◌==◌, Bool-cases, inl, inr,
}
use turtle_chat.Dict.{Dict, get, put, sweep, total}

-- The summand of a key.
abbrev pub share {ℓ} : {V : Type ℓ} → (V → ℕ) → Option V → ℕ
share f none = 0
share f (some v) = f v

module _ {ℓ} {K V : Type ℓ} ⦃e : Keyed K⦄ (f : V → ℕ) where
  pub total-put :
      (d : Dict K V) (k : K) (v : V) → total f (put d k v) + share f (get d k) ≡ total f d + f v
  unfolding total put get
  total-put [] k v = omega arith
  total-put ((i, w) ∷ d) k v = elim (Bool-cases (i == k)) [
    | inl h ↦ rw h (omega arith)
    | inr h ↦ rw h (omega (arith, total-put d k v))
  ]

  pub share-le-total : (d : Dict K V) (k : K) → share f (get d k) ≤ total f d
  unfolding total get
  share-le-total [] k = omega arith
  share-le-total ((i, w) ∷ d) k = elim (Bool-cases (i == k)) [
    | inl h ↦ rw h (omega arith)
    | inr h ↦ rw h (omega (arith, share-le-total d k))
  ]

module _ {ℓ} {K V : Type ℓ} (f g h : V → ℕ) (r : V → V) where
  -- A rewriting of every value that splits each summand in two splits the sum.
  pub total-rewrite :
      (d : Dict K V)
      → ((v : V) → f (r v) + g v ≡ h v)
      → total f (sweep (λ v. some (r v)) d) + total g d ≡ total h d
  unfolding total sweep
  total-rewrite [] e = omega arith
  total-rewrite ((k, v) ∷ d) e = omega (arith, e v, total-rewrite d e)
