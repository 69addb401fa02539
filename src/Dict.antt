-- ===== src/Dict.antt =====
-- Python's `dict`: an association list in insertion order, with at most one place for a key that
-- is written through `put`.
pub mod Laws
pub mod Items
pub mod Keys
pub mod Counts
pub mod Totals
use turtle_chat.Prelude.{
  Bool, Option, none, some, List, [], ◌∷◌, ℕ, ◌+◌, Keyed, ◌==◌, to_nat, if◌then◌else◌,
}

abbrev pub Dict {ℓ} : Type ℓ → Type ℓ → Type ℓ
Dict K V = List (K × V)

module _ {ℓ} {K V : Type ℓ} ⦃e : Keyed K⦄ where
  -- d.get(k)
  unfoldable pub get : Dict K V → K → Option V
  get [] k = none
  get ((j, v) ∷ d) k = if j == k then some v else get d k

  -- d[k] = v
  unfoldable pub put : Dict K V → K → V → Dict K V
  put [] k v = (k, v) ∷ []
  put ((j, w) ∷ d) k v = if j == k then (j, v) ∷ d else (j, w) ∷ put d k v

  -- d.pop(k, None)
  unfoldable pub pop : Dict K V → K → Dict K V
  pop [] k = []
  pop ((j, w) ∷ d) k = let rest = pop d k in if j == k then rest else (j, w) ∷ rest

abbrev keep {ℓ} : {K V : Type ℓ} → K → Option V → Dict K V → Dict K V
keep k none d = d
keep k (some v) d = (k, v) ∷ d

module _ {ℓ} {K V : Type ℓ} where
  -- A loop over list(d.items()) that rewrites each value, or pops its key.
  unfoldable pub sweep : (V → Option V) → Dict K V → Dict K V
  sweep f [] = []
  sweep f ((k, v) ∷ d) = keep k (f v) (sweep f d)

  -- d.values()
  unfoldable pub values : Dict K V → List V
  values [] = []
  values ((k, v) ∷ d) = v ∷ values d

  -- sum(1 for v in d.values() if p(v))
  unfoldable pub count : (V → Bool) → Dict K V → ℕ
  count p [] = 0
  count p ((k, v) ∷ d) = to_nat (p v) + count p d

  -- sum(f(v) for v in d.values())
  unfoldable pub total : (V → ℕ) → Dict K V → ℕ
  total f [] = 0
  total f ((k, v) ∷ d) = f v + total f d
