-- ===== src/ProjectUsage/Trace.antt =====
-- Calls on one `MemoryProjectUsageStore` (src/chatgpt_web_gateway/project_usage.py) in the order
-- that its lock gives them.
pub mod Booked
pub mod Ledger
pub mod Prepaid
pub mod Reserved
pub mod Settled
pub mod Histories
pub mod Leaks
use turtle_chat.Prelude.{ℕ, ℤ, String, Bool, Option, List, [], ◌∷◌}
use turtle_chat.ProjectUsage.Types.{UsageStore}
use turtle_chat.ProjectUsage.Permissions.{
  set_pricing_config, set_permission, Grant, grant_credit, delete_permission,
}
use turtle_chat.ProjectUsage.Keys.{Texts, Secret, create_key, revoke_key}
use turtle_chat.ProjectUsage.Requests.{begin_request}
use turtle_chat.ProjectUsage.Records.{Spent, record_usage}

pub data Call : Type 0 where
  prices : ℤ → String → ℕ → Call
  permits : String → Bool → String → Option ℤ → ℕ → Call
  grants : Grant → ℕ → Call
  deletes : String → ℕ → Call
  creates : String → String → Secret → ℕ → Call
  revokes : String → Option String → ℕ → Call
  begins : String → String → ℤ → ℕ → Call
  records : Spent → ℕ → Call

module _ (texts : Texts) where
  unfoldable pub step : UsageStore → Call → UsageStore
  step s (prices ppm updated_by now) = (set_pricing_config s ppm updated_by now).0
  step s (permits user_id enabled updated_by max_keys now) =
      (set_permission s user_id enabled updated_by max_keys now).0
  step s (grants g now) = (grant_credit s g now).0
  step s (deletes user_id now) = (delete_permission s user_id now).0
  step s (creates owner name secret now) = (create_key texts s owner name secret now).0
  step s (revokes key_id owner now) = (revoke_key s key_id owner now).0
  step s (begins key_id request_id authorization now) =
      (begin_request s key_id request_id authorization now).0
  step s (records e now) = (record_usage s e now).0

  unfoldable pub run : UsageStore → List Call → UsageStore
  unfolding step
  run s [] = s
  run s (call ∷ calls) = run (step s call) calls
