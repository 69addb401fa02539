-- ===== src/ProjectUsage.antt =====
-- src/chatgpt_web_gateway/project_usage.py, with MemoryProjectUsageStore
pub mod Types
pub mod Cost
pub mod Permissions
pub mod Keys
pub mod Requests
pub mod Records
pub mod Trace
pub mod Repeats
pub mod Callers
pub mod Lifecycle
pub mod Charges
mod Tests
