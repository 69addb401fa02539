-- ===== src/RemoteBrowser.antt =====
-- src/chatgpt_web_gateway/remote_browser_sessions.py: the one-time links to the login browser.
pub mod Sessions
pub mod Trace
pub mod Login
pub mod Revoked
mod Tests
