-- ===== src/Dict/Items.antt =====
-- A property of every item of a dictionary, and searches among its values.
use turtle_chat.Prelude.{
  ◌≡◌, refl, Bool, true, ◌&&◌, Option, none, some, List, [], ◌∷◌, arith, Keyed, ◌==◌, ==_eq, any_of,
  select, some_inj, Bool-cases, inl, inr, sym,
}
use mathlib.Core.Path.{subst, subst₂}
use turtle_chat.Dict.{Dict, get, put, sweep, values, keep}

module _ {ℓ} {K V : Type ℓ} where
  abbrev pub AllItems {κ} : (K → V → Type κ) → Dict K V → Type κ
  AllItems P [] = Unit
  AllItems P ((k, v) ∷ d) = P k v × AllItems P d

module _ {ℓ κ} {K V : Type ℓ} ⦃e : Keyed K⦄ (P : K → V → Type κ) where
  pub AllItems-get : (d : Dict K V) (k : K) (v : V) → AllItems P d → get d k ≡ some v → P k v
  unfolding get
  AllItems-get [] k v a h = cc
  AllItems-get ((i, w) ∷ d) k v a h = elim (Bool-cases (i == k)) [
    | inl t ↦ subst₂ P (==_eq i k t) (some_inj (rw t at h)) a.0
    | inr f ↦ AllItems-get d k v a.1 (rw f at h)
  ]

  pub AllItems-put : (d : Dict K V) (k : K) (v : V) → AllItems P d → P k v → AllItems P (put d k v)
  unfolding put
  AllItems-put [] k v a h = (h, tt)
  AllItems-put ((i, w) ∷ d) k v a h = elim (Bool-cases (i == k)) [
    | inl t ↦ rw t (subst (λ j. P j v) (sym (==_eq i k t)) h, a.1)
    | inr f ↦ rw f (a.0, AllItems-put d k v a.1 h)
  ]

  keep-AllItems :
      (d : Dict K V) (k : K) (o : Option V)
      → ((v : V) → o ≡ some v → P k v)
      → AllItems P d
      → AllItems P (keep k o d)
  keep-AllItems d k none h a = a
  keep-AllItems d k (some v) h a = (h v refl, a)

  pub AllItems-sweep :
      (f : V → Option V) (d : Dict K V)
      → ((k : K) (v w : V) → f v ≡ some w → P k v → P k w)
      → AllItems P d
      → AllItems P (sweep f d)
  unfolding sweep
  AllItems-sweep f [] h a = tt
  AllItems-sweep f ((k, v) ∷ d) h a =
      keep-AllItems (sweep f d) k (f v) (λ w e. h k v w e a.0) (AllItems-sweep f d h a.1)

module _ {ℓ} {V : Type ℓ} (p q : V → Bool) where
  pub any_of-select : (xs : List V) → any_of p (select q xs) ≡ any_of (λ x. q x && p x) xs
  unfolding any_of select
  any_of-select [] = refl
  any_of-select (x ∷ xs) = ground (arith, any_of-select xs)

module _ {ℓ} {K V : Type ℓ} ⦃e : Keyed K⦄ (p : V → Bool) where
  pub any_of-get :
      (d : Dict K V) (k : K) (v : V) → get d k ≡ some v → p v ≡ true → any_of p (values d) ≡ true
  unfolding get any_of values
  any_of-get [] k v h t = cc
  any_of-get ((i, w) ∷ d) k v h t = ground (arith, any_of-get d k v)

module _ {ℓ κ} {K V : Type ℓ} (P Q : K → V → Type κ) where
  -- A rewriting of every value, which pops none.
  pub AllItems-rewrite :
      (f : V → V) (d : Dict K V)
      → ((k : K) (v : V) → P k v → Q k (f v))
      → AllItems P d
      → AllItems Q (sweep (λ v. some (f v)) d)
  unfolding sweep
  AllItems-rewrite f [] h a = tt
  AllItems-rewrite f ((k, v) ∷ d) h a = (h k v a.0, AllItems-rewrite f d h a.1)
