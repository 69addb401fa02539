-- ===== src/ChatQuota.antt =====
-- branding/open-webui/turtle_chat/store.py: the limits of the models, and the requests that use
-- them up.
pub mod Rules
pub mod Usage
pub mod Reserve
pub mod Chains
pub mod Statuses
pub mod Acyclic
pub mod Limits
pub mod Answers
mod Tests
