-- ===== src/AccountPool/Types.antt =====
-- The rows of `MemoryAccountStore` (src/chatgpt_web_gateway/account_pool.py). Times are seconds.
use turtle_chat.Prelude.{ℕ, String, Bool, true, false, Option, string_eq, ℤ}
use turtle_chat.Dict.{Dict}
use turtle_chat.Quota.Lookup.{Provider}

pub data AccountStatus : Type 0 where
  disabled ready cooldown reauth_required : AccountStatus

pub data SessionState : Type 0 where
  missing valid expired unknown : SessionState

pub data HealthState : Type 0 where
  unknown healthy degraded unhealthy : HealthState

pub record Account : Type 0 where
  pub id : String
  pub pool_id : String
  pub provider : Provider
  pub name : String
  pub worker_endpoint : String
  pub health_path : Option String
  pub enabled : Bool
  pub status : AccountStatus
  pub session_state : SessionState
  pub health_status : HealthState
  pub max_concurrency : ℕ
  pub priority : ℤ
  pub quota_profile : String
  pub last_used_at : Option ℕ
  pub last_success_at : Option ℕ
  pub last_health_at : Option ℕ
  pub last_error_class : Option String
  pub last_probe_latency_ms : Option ℕ
  pub upstream_display_name : Option String
  pub upstream_identity_updated_at : Option ℕ
  pub consecutive_failures : ℕ
  pub cooldown_until : Option ℕ
  pub deployment_managed : Bool
  pub created_at : ℕ
  pub updated_at : ℕ

pub record AccountGroup : Type 0 where
  pub id : String
  pub name : String
  pub description : String
  pub provider : Provider
  pub enabled : Bool
  pub created_at : ℕ
  pub updated_at : ℕ

pub data LeaseState : Type 0 where
  active completed cancelled failed expired : LeaseState

abbrev pub is_active : LeaseState → Bool
is_active active = true
is_active _ = false

abbrev pub is_completed : LeaseState → Bool
is_completed completed = true
is_completed _ = false

pub record PoolLease : Type 0 where
  pub request_id : String
  pub account_id : String
  pub pool_id : String
  pub user_id : Option String
  pub chat_id : Option String
  pub selection_key : String
  pub state : LeaseState
  pub leased_at : ℕ
  pub expires_at : ℕ
  pub completed_at : Option ℕ
  pub outcome : Option String
  pub error_class : Option String
  pub usage_units : ℕ

pub record Affinity : Type 0 where
  pub pool_id : String
  pub chat_id : String
  pub user_id : Option String
  pub preferred_account_id : String
  pub created_at : ℕ
  pub updated_at : ℕ
  pub last_routed_at : ℕ
  pub migration_count : ℕ
  pub last_migrated_at : Option ℕ
  pub last_migration_reason : Option String

pub record LaneBlock : Type 0 where
  pub account_id : String
  pub selection_key : String
  pub blocked_until : ℕ
  pub first_rate_limit_at : ℕ
  pub last_rate_limit_at : ℕ
  pub consecutive_failures : ℕ

pub record AccountStore : Type 0 where
  pub pools : Dict String AccountGroup
  pub accounts : Dict String Account
  pub affinity : Dict (String × String) Affinity
  pub leases : Dict String PoolLease
  pub lane_blocks : Dict (String × String) LaneBlock
