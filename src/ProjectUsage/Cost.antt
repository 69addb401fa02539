-- ===== src/ProjectUsage/Cost.antt =====
-- `_normalize_multiplier` and `_apply_cost_multiplier`
-- (src/chatgpt_web_gateway/project_usage.py). A multiplier is given in millionths, as the text or
-- number is after `round(float(value) * 1_000_000)`.
use turtle_chat.Prelude.{
  ℕ, ◌+◌, ◌-◌, ◌*◌, ◌/◌, ◌≤◌, Option, none, some, eqb, leb, if◌then◌else◌, arith, ℤ, pos, negsuc,
  at_least, zero,
}
use native.Mathlib.Nat.{mul-le-mul_right}

abbrev pub cost_multiplier_scale : ℕ
cost_multiplier_scale = 1000000

abbrev pub max_cost_multiplier_ppm : ℕ
max_cost_multiplier_ppm = 100000000

abbrev pub normalize_multiplier : ℤ → Option ℕ
normalize_multiplier (pos ppm) = if leb ppm max_cost_multiplier_ppm then some ppm else none
normalize_multiplier (negsuc n) = none

-- (official * multiplier_ppm + SCALE - 1) // SCALE
unfoldable pub actual_cost : ℕ → ℕ → ℕ
actual_cost official multiplier_ppm =
    (official * multiplier_ppm + cost_multiplier_scale - 1) / cost_multiplier_scale

-- `x or y` on optional amounts: None and 0 are false.
abbrev pub or_amount : Option ℤ → Option ℤ → Option ℤ
or_amount none other = other
or_amount (some (pos zero)) other = other
or_amount (some z) other = some z

abbrev pub amount_of : Option ℤ → ℕ
amount_of none = 0
amount_of (some z) = at_least 0 z

abbrev pub official_of : Option ℤ → Option ℤ → ℕ
official_of official estimated = amount_of (or_amount official estimated)

abbrev pub charged : ℕ → ℕ → ℕ
charged official multiplier_ppm = if eqb official 0 then 0 else actual_cost official multiplier_ppm

-- The charge is monotone in the official cost.
pub charged-le-actual_cost :
    (official authorized ppm : ℕ)
    → official ≤ authorized
    → charged official ppm ≤ actual_cost authorized ppm
unfolding actual_cost
charged-le-actual_cost official authorized ppm h = ground (arith, mul-le-mul_right ppm h)
