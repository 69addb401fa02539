-- ===== src/Prelude/Int.antt =====
-- Python integers where they may be negative. `negsuc n` is -(n + 1).
use Prim.Native.Nat.{ℕ, ◌+◌, ◌-◌, ◌≤◌, ◌<◌, max}
use mathlib.Core.Path.{◌≡◌}
use mathlib.Core.Bool.{Bool, true}
use native.Mathlib.Omega.{arith}
use turtle_chat.Prelude.Tests.{ltb, leb, if◌then◌else◌}

pub data ℤ : Type 0 where
  pos : ℕ → ℤ
  negsuc : ℕ → ℤ

-- max(k, v) for a bound k that is not negative.
abbrev pub at_least : ℕ → ℤ → ℕ
at_least k (pos n) = max k n
at_least k (negsuc n) = k

pub le-at_least : (k : ℕ) (v : ℤ) → k ≤ at_least k v
le-at_least k (pos n) = omega arith
le-at_least k (negsuc n) = omega arith

pub at_least-positive : (z : ℤ) → 0 < at_least 1 z
at_least-positive (pos n) = omega arith
at_least-positive (negsuc n) = omega arith

-- The integer a - b of two natural numbers.
abbrev pub difference : ℕ → ℕ → ℤ
difference a b = if leb b a then pos (a - b) else negsuc (b - a - 1)

-- z + n and z - n for a natural number n.
abbrev pub plus : ℤ → ℕ → ℤ
plus (pos a) n = pos (a + n)
plus (negsuc a) n = difference n (a + 1)

abbrev pub minus : ℤ → ℕ → ℤ
minus (pos a) n = difference a n
minus (negsuc a) n = negsuc (a + n)

-- z < n
abbrev pub below : ℤ → ℕ → Bool
below (pos a) n = ltb a n
below (negsuc a) n = true

pub plus-difference : (a b n : ℕ) → plus (difference a b) n ≡ difference (a + n) b
plus-difference a b n = ground arith

pub minus-difference : (a b n : ℕ) → minus (difference a b) n ≡ difference a (b + n)
minus-difference a b n = ground arith
