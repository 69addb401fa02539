-- ===== src/Dict/Keys.antt =====
-- Dictionaries in which no key stands twice, as Python's always are.
use turtle_chat.Prelude.{
  ◌≡◌, refl, ◌∙◌, none, some, [], ◌∷◌, arith, Keyed, ◌==◌, ==_eq, Bool-cases, inl, inr, if_false,
}
use turtle_chat.Dict.{Dict, get, put, sweep}
use turtle_chat.Dict.Laws.{get-put}
use turtle_chat.Dict.Items.{AllItems}

module _ {ℓ} {K V : Type ℓ} ⦃e : Keyed K⦄ where
  abbrev pub Distinct : Dict K V → Type ℓ
  Distinct [] = Unit
  Distinct ((k, v) ∷ d) = (get d k ≡ none) × Distinct d

  pub Distinct-put : (d : Dict K V) (k : K) (v : V) → Distinct d → Distinct (put d k v)
  unfolding put get
  Distinct-put [] k v a = (refl, tt)
  Distinct-put ((i, w) ∷ d) k v a = elim (Bool-cases (i == k)) [
    | inl t ↦ rw t a
    | inr f ↦ rw f (
      get-put d k i v
          ∙ if_false (k == i) _ _ (ground (arith, e.same_iff i k, e.same_iff k i))
          ∙ a.0,
      Distinct-put d k v a.1,
    )
  ]

  pub get-rewrite-none :
      (f : V → V) (d : Dict K V) (k : K) → get d k ≡ none → get (sweep (λ v. some (f v)) d) k ≡ none
  unfolding get sweep
  get-rewrite-none f [] k h = refl
  get-rewrite-none f ((i, w) ∷ d) k h = elim (Bool-cases (i == k)) [
    | inl t ↦ cc (rw t at h)
    | inr n ↦ rw n (get-rewrite-none f d k (rw n at h))
  ]

  pub Distinct-rewrite :
      (f : V → V) (d : Dict K V) → Distinct d → Distinct (sweep (λ v. some (f v)) d)
  unfolding sweep
  Distinct-rewrite f [] a = tt
  Distinct-rewrite f ((k, v) ∷ d) a = (get-rewrite-none f d k a.0, Distinct-rewrite f d a.1)

module _ {ℓ κ} {K V : Type ℓ} (P Q : K → V → Type κ) where
  pub AllItems-map :
      (d : Dict K V) → ((k : K) (v : V) → P k v → Q k v) → AllItems P d → AllItems Q d
  AllItems-map [] h a = tt
  AllItems-map ((k, v) ∷ d) h a = (h k v a.0, AllItems-map d h a.1)

module _ {ℓ} {K V : Type ℓ} ⦃e : Keyed K⦄ (P : K → V → Type ℓ) where
  get-later :
      (d : Dict K V) (i j : K) (v w : V)
      → get d i ≡ none
      → get d j ≡ some w
      → get ((i, v) ∷ d) j ≡ some w
  unfolding get
  get-later d i j v w n h = elim (Bool-cases (i == j)) [
    | inl t ↦ cc (n, h, ==_eq i j t)
    | inr f ↦ rw f h
  ]

  -- Every item is what its key is bound to.
  pub items-get :
      (d : Dict K V) → Distinct d → AllItems P d → AllItems (λ k v. P k v × (get d k ≡ some v)) d
  unfolding get
  items-get [] n a = tt
  items-get ((k, v) ∷ d) n a = (
    (a.0, rw ((e.same_iff k k).1 refl) refl),
    AllItems-map _ _ d (λ j w h. (h.0, get-later d k j v w n.0 h.1)) (items-get d n.1 a.1),
  )
