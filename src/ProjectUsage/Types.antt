-- ===== src/ProjectUsage/Types.antt =====
-- The rows of `MemoryProjectUsageStore` (src/chatgpt_web_gateway/project_usage.py). Amounts are
-- micro-USD, times are seconds. A key's `total_points`, which nothing changes, is left out, and so
-- are the fields of a usage entry that the store only keeps.
use turtle_chat.Prelude.{ℕ, String, Bool, true, false, Option, List, ℤ}
use turtle_chat.Dict.{Dict}

pub record Permission : Type 0 where
  pub user_id : String
  pub enabled : Bool
  pub created_at : ℕ
  pub updated_at : ℕ
  pub updated_by : String
  pub max_keys : ℕ
  pub balance_microusd : Option ℤ
  pub reserved_microusd : ℕ

pub data KeyStatus : Type 0 where
  active revoked : KeyStatus

abbrev pub is_active : KeyStatus → Bool
is_active active = true
is_active revoked = false

pub record ApiKey : Type 0 where
  pub id : String
  pub owner_user_id : String
  pub name : String
  pub key_prefix : String
  pub key_digest : String
  pub status : KeyStatus
  pub created_at : ℕ
  pub last_used_at : Option ℕ
  pub revoked_at : Option ℕ
  pub request_count : ℕ
  pub total_tokens : ℕ
  pub total_estimated_cost_microusd : ℕ
  pub total_official_cost_microusd : ℕ

pub data RequestState : Type 0 where
  reserved released completed : RequestState

abbrev pub is_reserved : RequestState → Bool
is_reserved reserved = true
is_reserved _ = false

pub record ProjectRequest : Type 0 where
  pub key_id : String
  pub request_id : String
  pub owner_user_id : String
  pub state : RequestState
  pub reserved_microusd : ℕ
  pub cost_multiplier_ppm : ℕ
  pub created_at : ℕ
  pub updated_at : ℕ
  pub expires_at : ℕ

pub data EntryType : Type 0 where
  grant usage : EntryType

pub record LedgerEntry : Type 0 where
  pub id : String
  pub user_id : String
  pub idempotency_key : String
  pub entry_type : EntryType
  pub amount_microusd : ℤ
  pub balance_after_microusd : ℤ
  pub request_id : Option String
  pub key_id : Option String
  pub reason : String
  pub created_by : String
  pub created_at : ℕ

pub record UsageEntry : Type 0 where
  pub id : String
  pub key_id : String
  pub request_id : String
  pub total_tokens : ℕ
  pub official_cost_microusd : ℕ
  pub cost_multiplier_ppm : ℕ
  pub estimated_cost_microusd : ℕ
  pub created_at : ℕ

pub record PricingConfig : Type 0 where
  pub cost_multiplier_ppm : ℕ
  pub updated_at : Option ℕ
  pub updated_by : String

pub record UsageStore : Type 0 where
  pub keys : Dict String ApiKey
  pub permissions : Dict String Permission
  pub usage : List UsageEntry
  pub requests : Dict (String × String) ProjectRequest
  pub credit_ledger : List LedgerEntry
  pub config : PricingConfig

-- What a call raises.
pub data Failure : Type 0 where
  key_conflict request_conflict balance_insufficient permission_denied unknown : Failure

pub data Reply {ℓ} (A : Type ℓ) : Type ℓ where
  returns : A → Reply A
  raises : Failure → Reply A
