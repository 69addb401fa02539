-- ===== src/Lib.antt =====
-- Verification of the scheduling core of Turtle Chat: how chat requests wait for a place, how an
-- admitted request is counted, given an upstream account and paid for, and how an account is logged
-- in.
--
-- A chat request passes two gates. The coordinator of the chat front end
-- (branding/open-webui/turtle_chat/concurrency.py) queues it and admits it when its user, its
-- group, its account pool, its provider and the process have room. Its place is then reserved in
-- the quota of its model, or of one that the rules name instead
-- (branding/open-webui/turtle_chat/store.py). The gateway's account pool
-- (src/chatgpt_web_gateway/account_pool.py) then leases one account of the pool to it, with the
-- lanes that the account's plan has (src/chatgpt_web_gateway/account_quota.py), and learns from the
-- outcome of the request which lanes and accounts to rest. A request that came with an API key is
-- also given a simulated price, and is paid for by the project usage store
-- (src/chatgpt_web_gateway/project_usage.py): credit is reserved when it begins, and charged when
-- its usage is recorded.
--
-- Prelude and its children: names of the libraries, Boolean tests, lists, Python's integers, texts.
-- Dict and its children: Python's `dict` as an association list in insertion order.
-- Concurrency.Entry, Concurrency.Limits, Concurrency.Memory: `ChatConcurrencyCoordinator` with its
--   in-memory backend: `__init__`, `_provider_limit`, `_refresh_dynamic_limits`,
--   `_memory_cleanup`, `_memory_active`, `_acquire_memory`, `release` and the heartbeat. The
--   waiting loop of `_acquire_memory` is a function of one round, `attempt`; the condition
--   variable's lock makes rounds atomic, so a history is a list of events
--   (Concurrency.Memory.Trace). The clocks that a round reads are given with the event.
-- Quota.Lane, Quota.Gpt, Quota.Claude, Quota.Lookup: `_lane`, the two tables of profiles,
--   `normalize_quota_profile`, `selection_keys` and `quota_lane`.
-- AccountPool.Types: the rows of `MemoryAccountStore`. AccountPool.Usage: `_quota_usage` and
--   `_lane_snapshot`. AccountPool.Cooldown: `_lane_rate_limit_cooldown_seconds`. AccountPool.Choose
--   and AccountPool.Select: `_choose_account` and the ranks it compares. AccountPool.Health:
--   `_admission_eligible`, `_apply_probe` and `_apply_account_result`. AccountPool.Store and
--   AccountPool.Acquire: `_expire`, `acquire`, `renew` and `release`. AccountPool.Recovery:
--   `claim_rate_limit_recoveries`. AccountPool.Admin: `initialize`, pools,
--   accounts, logins and probes.
--   AccountPool.Trace: sequences of lease calls, each atomic under the store's lock.
-- Pricing: the price card, `price_for_route` and `simulated_cost` of
--   src/chatgpt_web_gateway/api_pricing.py.
-- ProjectUsage: `MemoryProjectUsageStore` of src/chatgpt_web_gateway/project_usage.py, which pays
--   for the calls of API keys out of prepaid credit. ProjectUsage.Types: its rows, amounts in
--   micro-USD. ProjectUsage.Cost: `_normalize_multiplier` and `_apply_cost_multiplier`.
--   ProjectUsage.Permissions: `set_pricing_config`, `set_permission`, `grant_credit` and
--   `delete_permission`. ProjectUsage.Keys: `create_key`, `authenticate` and `revoke_key`.
--   ProjectUsage.Requests: `begin_request`. ProjectUsage.Records: `record`. ProjectUsage.Trace:
--   sequences of the calls that change the store, as `ProjectUsageManager` passes them on.
-- RemoteBrowser: the one-time links and cookies with which an administrator reaches the browser
--   that logs an account in (src/chatgpt_web_gateway/remote_browser_sessions.py).
--   RemoteBrowser.Sessions: the store, `_load_store`, `_prune`, `_locked_store` and the four calls.
--   RemoteBrowser.Trace: sequences of calls.
-- ChatQuota: how often a user may use each model (branding/open-webui/turtle_chat/store.py).
--   ChatQuota.Rules: SELECTIONS and `_normalize_group_rules`. ChatQuota.Usage: the tables
--   `chat_usage` and `chat_quota_window`, `_cleanup_stale`, `_window_counts`, `_model_statuses` and
--   `_ensure_window`, each statement of SQL as an update of whole rows. ChatQuota.Reserve: `reserve`,
--   `finalize` and `reset_quota_windows`.
-- AccountPool.Fence: the probes that come during a login.
--
-- Loops over a list or a dictionary are structural recursions. The loop over the fallbacks of a
-- lane runs on fuel, one more than the lanes that have a status, and the walk along the fallbacks
-- of a rule on two more than the rules: neither goes on from the same key twice. Times and counts
-- are natural numbers, which do not overflow in Python; where a value may be negative it is an
-- integer. Quotients that the code compares as floating-point
-- numbers are exact fractions here, and the reserve ratio of a lane is in thousandths. The hash
-- `_stable_tiebreak`, the identifiers of `uuid.uuid4`, the limits resolver, the digest of a secret,
-- the length and casefold of a text, the white space in it, and the environment are parameters.
--
-- Not modelled: the Redis backend of the coordinator and the Postgres stores, whose steps are
-- scripts and statements that run in those servers; the rest of the chat store, most of which is
-- SQL; the asyncio service around the account pool; the network clients, the HTTP applications,
-- storage, media, the login browser itself and the patches of the front end. Of the project usage
-- store the read-only lists and the summary are left out.
pub mod Prelude
pub mod Dict
pub mod Concurrency
pub mod Quota
pub mod ChatQuota
pub mod AccountPool
pub mod Pricing
pub mod ProjectUsage
pub mod RemoteBrowser
