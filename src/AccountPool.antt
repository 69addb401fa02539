-- ===== src/AccountPool.antt =====
-- src/chatgpt_web_gateway/account_pool.py, with MemoryAccountStore
pub mod Types
pub mod Usage
pub mod Cooldown
pub mod Choose
pub mod Select
pub mod Health
pub mod Store
pub mod Acquire
pub mod Trace
pub mod Admin
pub mod Fence
mod Tests
pub mod Recovery
