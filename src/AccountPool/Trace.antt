-- ===== src/AccountPool/Trace.antt =====
-- Calls of `acquire`, `renew`, `release` and `claim_rate_limit_recoveries` on one `MemoryAccountStore`
-- (src/chatgpt_web_gateway/account_pool.py) in the order that its lock gives them.
pub mod Leases
pub mod Rooms
pub mod Chats
pub mod Histories
use turtle_chat.Prelude.{ℕ, ℤ, String, Option, List, [], ◌∷◌}
use turtle_chat.AccountPool.Types.{AccountStore}
use turtle_chat.AccountPool.Store.{AcquireArgs}
use turtle_chat.AccountPool.Recovery.{claim_rate_limit_recoveries}
use turtle_chat.AccountPool.Acquire.{acquire, renew, release, Report}

pub data Call : Type 0 where
  acquires : AcquireArgs → ℕ → Call
  renews : String → String → ℕ → ℕ → Call
  releases : String → String → Report → ℕ → Call
  claims : (ℕ → String) → ℤ → ℤ → ℕ → Call

module _ (tiebreak : String → Option String → String → ℕ) where
  unfoldable pub step : AccountStore → Call → AccountStore
  step s (acquires a now) = (acquire tiebreak s a now).0
  step s (renews request_id account_id lease_seconds now) =
      (renew s request_id account_id lease_seconds now).0
  step s (releases request_id account_id r now) = release s request_id account_id r now
  step s (claims new_id limit claim_seconds now) =
      (claim_rate_limit_recoveries new_id s limit claim_seconds now).0

  unfoldable pub run : AccountStore → List Call → AccountStore
  unfolding step
  run s [] = s
  run s (call ∷ calls) = run (step s call) calls
