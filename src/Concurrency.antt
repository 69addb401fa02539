-- ===== src/Concurrency.antt =====
-- branding/open-webui/turtle_chat/concurrency.py
pub mod Entry
pub mod Limits
pub mod Memory
