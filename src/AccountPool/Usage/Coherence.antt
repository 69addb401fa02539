-- ===== src/AccountPool/Usage/Coherence.antt =====
-- How the parts of a lane snapshot relate (src/chatgpt_web_gateway/account_pool.py).
use turtle_chat.Prelude.{
  ℕ, ◌+◌, ◌-◌, ◌<◌, ◌≡◌, Bool, true, false, Option, some, arith, not, ◌&&◌, &&-true, Option-cases,
  inl, inr,
}
use turtle_chat.Quota.Lane.{Lane}
use turtle_chat.AccountPool.Usage.{
  QuotaUsage, LaneState, LaneSnapshot, lane_snapshot, lane_state, is_some, is_spent, remaining_of,
}

-- The states in which a lane takes requests.
abbrev pub is_open : LaneState → Bool
is_open LaneState.disabled = false
is_open LaneState.cooldown = false
is_open LaneState.exhausted = false
is_open _ = true

lane_state_open :
    (l : Lane) (blocked : Bool) (remaining : Option ℕ)
    → is_open (lane_state l blocked remaining)
      ≡ (l.enabled && not blocked && not (is_spent remaining))
unfolding lane_state
lane_state_open l blocked remaining = elim (Option-cases l.dispatch_budget_count) [
  | inl n ↦ rw n (ground arith)
  | inr (budget, e) ↦ rw e (ground arith)
]

pub record IsCoherent (l : Lane) (x : LaneSnapshot) : Type 0 where
  pub state_open : is_open x.state ≡ x.is_available
  pub admits : x.is_available ≡ true → x.admission_available ≡ true
  pub within :
      (budget : ℕ)
      → l.dispatch_budget_count ≡ some budget
      → x.is_available ≡ true
      → x.used_count + x.active_count < budget

available-within :
    (budget used running : ℕ)
    → not (is_spent (some (budget - used - running))) ≡ true
    → used + running < budget
available-within budget used running h = ground (arith, h)

-- Whatever lane, usage and block: a lane takes requests exactly in the states reserve, dynamic,
-- untracked and available; a lane that takes requests also counts as capacity for admission; and
-- with a budget it takes them only while the used and the running units together are below it.
pub lane_snapshot-IsCoherent :
    (l : Lane) (u : QuotaUsage) (blocked_until : Option ℕ)
    → IsCoherent l (lane_snapshot l u blocked_until)
unfolding lane_snapshot
lane_snapshot-IsCoherent l u blocked_until = record {
  state_open =
      lane_state_open l (is_some blocked_until)
        (remaining_of l.dispatch_budget_count u.used_count u.active_count);
  admits = λ h. elim (Option-cases l.dispatch_budget_count) [
    | inl n ↦ let h' = rw n at h in rw n (ground (arith, h'))
    | inr (budget, e) ↦ let h' = rw e at h in rw e (ground (arith, h'))
  ];
  within = λ budget e h.
      let h' = rw e at h in available-within budget u.used_count u.active_count (&&-true _ _ h').1;
}
