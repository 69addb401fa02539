-- ===== src/AccountPool/Cooldown.antt =====
-- `_lane_rate_limit_cooldown_seconds` (src/chatgpt_web_gateway/account_pool.py).
use turtle_chat.Prelude.{
  ℕ, ◌+◌, ◌-◌, ◌*◌, ◌^◌, ◌≤◌, ◌<◌, ◌≡◌, max, min, true, inl, inr, Bool-cases, pos, negsuc, Option,
  none, some, eqb, if◌then◌else◌, arith, ℤ, at_least, zero, suc,
}
use native.Mathlib.Nat.{pow-suc}
use turtle_chat.Quota.Lane.{Lane}
use turtle_chat.AccountPool.Usage.{is_dynamic}

-- `lane.get("published_window_seconds") or 5 * 60 * 60`
abbrev window_or_five_hours : Option ℕ → ℕ
window_or_five_hours none = 18000
window_or_five_hours (some zero) = 18000
window_or_five_hours (some (suc n)) = suc n

unfoldable pub dynamic_cap : Lane → ℕ
dynamic_cap lane = min 18000 (max 900 (window_or_five_hours lane.published_window_seconds))

unfoldable pub dynamic_cooldown : ℕ → ℕ → ℕ → ℕ → ℕ
dynamic_cooldown cap failures cooldown_seconds elapsed_seconds =
    let left = cap - elapsed_seconds in
    if eqb left 0 then 1800 else min left (max cooldown_seconds (900 * 2 ^ min (failures - 1) 5))

-- The hint is what `retry_after_seconds` holds; the lane is the account's at the selection key.
unfoldable pub lane_rate_limit_cooldown_seconds : Lane → ℕ → ℕ → ℕ → Option ℤ → ℕ
unfolding dynamic_cap dynamic_cooldown
lane_rate_limit_cooldown_seconds lane failures cooldown_seconds elapsed_seconds (some hint) =
    min 86400 (at_least 60 hint)
lane_rate_limit_cooldown_seconds lane failures cooldown_seconds elapsed_seconds none =
    if is_dynamic lane.source
    then dynamic_cooldown (dynamic_cap lane) failures cooldown_seconds elapsed_seconds
    else min 900 (max cooldown_seconds (15 * 2 ^ min failures 5))

pow2_pos : (n : ℕ) → 0 < 2 ^ n
pow2_pos zero = omega arith
pow2_pos (suc n) = simp pow-suc (omega (arith, pow2_pos n))

dynamic_cooldown_bounds :
    (cap failures cooldown_seconds elapsed : ℕ)
    → (0 < dynamic_cooldown cap failures cooldown_seconds elapsed)
      × (dynamic_cooldown cap failures cooldown_seconds elapsed ≤ max cap 1800)
      × (elapsed < cap → elapsed + dynamic_cooldown cap failures cooldown_seconds elapsed ≤ cap)
unfolding dynamic_cooldown
dynamic_cooldown_bounds cap failures cooldown_seconds elapsed =
    ground (arith, pow2_pos (min (failures - 1) 5))

module _ (lane : Lane) (failures cooldown_seconds elapsed : ℕ) where
  abbrev wait : Option ℤ → ℕ
  wait hint = lane_rate_limit_cooldown_seconds lane failures cooldown_seconds elapsed hint

  no_hint_bounds : (0 < wait none) × (wait none ≤ 18000)
  unfolding lane_rate_limit_cooldown_seconds
  no_hint_bounds = elim (Bool-cases (is_dynamic lane.source)) [
    | inl y ↦ rw y (
        unfold dynamic_cap in
        ground
          (arith, dynamic_cooldown_bounds (dynamic_cap lane) failures cooldown_seconds elapsed))
    | inr n ↦ rw n (ground (arith, pow2_pos (min failures 5)))
  ]

  pub cooldown_bounds :
      (hint : Option ℤ)
      → (0 < lane_rate_limit_cooldown_seconds lane failures cooldown_seconds elapsed hint)
        × (lane_rate_limit_cooldown_seconds lane failures cooldown_seconds elapsed hint ≤ 86400)
        × (lane_rate_limit_cooldown_seconds lane failures cooldown_seconds elapsed none ≤ 18000)
  unfolding lane_rate_limit_cooldown_seconds
  cooldown_bounds none = let b = no_hint_bounds in (b.0, omega arith, b.1)
  cooldown_bounds (some (pos n)) = (omega arith, omega arith, no_hint_bounds.1)
  cooldown_bounds (some (negsuc n)) = (omega arith, omega arith, no_hint_bounds.1)

  pub cooldown_within_window :
      is_dynamic lane.source ≡ true
      → elapsed < dynamic_cap lane
      → elapsed + lane_rate_limit_cooldown_seconds lane failures cooldown_seconds elapsed none
        ≤ dynamic_cap lane
  unfolding lane_rate_limit_cooldown_seconds
  cooldown_within_window y h =
      rw y ((dynamic_cooldown_bounds (dynamic_cap lane) failures cooldown_seconds elapsed).2 h)
