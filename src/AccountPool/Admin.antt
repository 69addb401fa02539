-- ===== src/AccountPool/Admin.antt =====
-- The administration of pools and accounts in `MemoryAccountStore`: `create_pool`, `update_pool`,
-- `delete_pool`, `create_account`, `update_account`, `begin_reauth` and `mark_probe`
-- (src/chatgpt_web_gateway/account_pool.py). `none` is AccountPoolConflict or the ValueError of a
-- quota profile that the provider does not have. The identifier that `uuid.uuid4` makes is an
-- argument. A pool's provider is one of the two: `_normalize_provider` ran before.
pub mod Pools
pub mod Accounts
pub mod References
pub mod Defaults
