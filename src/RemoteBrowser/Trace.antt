-- ===== src/RemoteBrowser/Trace.antt =====
-- Calls on one store of the login browser, in the order that the file's lock gives them
-- (src/chatgpt_web_gateway/remote_browser_sessions.py).
pub mod Counts
pub mod Stages
pub mod Holds
pub mod Spent
use turtle_chat.Prelude.{ℕ, ℤ, String, List, [], ◌∷◌}
use turtle_chat.RemoteBrowser.Sessions.{
  File, Texts, issue_pending_session, exchange_pending_session, consume_connection,
  revoke_account_sessions,
}

pub data Call : Type 0 where
  issues : String → ℤ → String → ℕ → ℕ → Call
  exchanges : String → String → ℕ → ℕ → Call
  consumes : String → ℕ → ℕ → Call
  revokes : String → ℕ → Call

module _ (texts : Texts) where
  unfoldable pub step : File → Call → File
  step file (issues account_id ttl_seconds raw now clock) =
      (issue_pending_session texts file account_id ttl_seconds raw now clock).0
  step file (exchanges token connection now clock) =
      (exchange_pending_session texts file token connection now clock).0
  step file (consumes cookie now clock) = (consume_connection texts file cookie now clock).0
  step file (revokes account_id clock) = (revoke_account_sessions file account_id clock).0

  unfoldable pub run : File → List Call → File
  unfolding step
  run file [] = file
  run file (call ∷ calls) = run (step file call) calls
