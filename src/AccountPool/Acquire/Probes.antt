-- ===== src/AccountPool/Acquire/Probes.antt =====
-- When the next probe of a rate-limited lane is due (src/chatgpt_web_gateway/account_pool.py).
use turtle_chat.Prelude.{ℕ, ◌+◌, ◌-◌, ◌≤◌, ◌<◌, ◌≡◌, true, Option, none, arith, String}
use turtle_chat.Quota.Lane.{Lane}
use turtle_chat.AccountPool.Types.{LaneBlock}
use turtle_chat.AccountPool.Usage.{is_dynamic}
use turtle_chat.AccountPool.Cooldown.{dynamic_cap, cooldown_bounds, cooldown_within_window}
use turtle_chat.AccountPool.Acquire.{Report, block_lane, first_limit_at, failures_of}

module _ (account_id key : String) (lane : Lane) (r : Report) (now : ℕ)
    (previous : Option LaneBlock) where
  -- Whatever the lane, the report and the block before: the block that a rate limit stores sets the
  -- next probe at least one second and at most a day after now, and, if the report has no hint of
  -- the upstream, at most five hours.
  pub block_lane_delays :
      (now < (block_lane account_id key lane r now previous).blocked_until)
      × ((block_lane account_id key lane r now previous).blocked_until ≤ now + 86400)
      × ((block_lane account_id key lane
            (record r { retry_after_seconds = none })
            now
            previous).blocked_until
          ≤ now + 18000)
  unfolding block_lane
  block_lane_delays =
      let b =
        cooldown_bounds lane (failures_of previous + 1) r.cooldown_seconds
          (now - first_limit_at previous now) r.retry_after_seconds in
      (omega (arith, b.0), omega (arith, b.1), omega (arith, b.2))

  -- On a lane with dynamic limits, without a hint of the upstream, while the window of `dynamic_cap`
  -- seconds since the first rate limit is open: the block that a rate limit stores sets the next
  -- probe at or before the window's end.
  pub block_lane_in_window :
      r.retry_after_seconds ≡ none
      → is_dynamic lane.source ≡ true
      → first_limit_at previous now ≤ now
      → now < first_limit_at previous now + dynamic_cap lane
      → (block_lane account_id key lane r now previous).blocked_until
        ≤ (block_lane account_id key lane r now previous).first_rate_limit_at + dynamic_cap lane
  unfolding block_lane
  block_lane_in_window n y l w = rw n (
      omega (
        arith,
        l,
        w,
        cooldown_within_window lane (failures_of previous + 1) r.cooldown_seconds
            (now - first_limit_at previous now) y (omega (arith, l, w)),
      ))
