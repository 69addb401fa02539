-- ===== src/Quota.antt =====
-- src/chatgpt_web_gateway/account_quota.py
pub mod Lane
pub mod Gpt
pub mod Claude
pub mod Lookup
