-- ===== src/ProjectUsage/Permissions.antt =====
-- `set_pricing_config`, `set_permission`, `permission`, `grant_credit` and `delete_permission` of
-- `MemoryProjectUsageStore` (src/chatgpt_web_gateway/project_usage.py). One reading of the clock a
-- call is an argument, and so are the identifiers that `uuid.uuid4` makes; texts are those after
-- `str(... or "").strip()`.
use turtle_chat.Prelude.{
  ℕ, String, Bool, true, false, not, ◌&&◌, ◌||◌, Option, none, some, ◌==◌, string_eq, List, [], ◌∷◌,
  ◌++◌, leb, eqb, if◌then◌else◌, any_of, ℤ, pos, negsuc, plus,
}
use turtle_chat.Dict.{get, put, pop, sweep, values}
use turtle_chat.ProjectUsage.Types.{
  Permission, ApiKey, KeyStatus, is_active, ProjectRequest, RequestState, is_reserved, LedgerEntry,
  EntryType, UsageStore, Failure, Reply, returns, raises,
}
use turtle_chat.ProjectUsage.Cost.{normalize_multiplier, cost_multiplier_scale}

abbrev pub default_max_keys : ℕ
default_max_keys = 5

abbrev pub empty_store : UsageStore
empty_store = record {
  keys = [];
  permissions = [];
  usage = [];
  requests = [];
  credit_ledger = [];
  config = record {
    cost_multiplier_ppm = cost_multiplier_scale;
    updated_at = none;
    updated_by = "system";
  };
}

abbrev pub price_with : UsageStore → String → ℕ → Option ℕ → UsageStore × Reply ℕ
price_with s updated_by now none = (s, raises Failure.key_conflict)
price_with s updated_by now (some ppm) = (
  record s {
    config = record { cost_multiplier_ppm = ppm; updated_at = some now; updated_by = updated_by };
  },
  returns ppm,
)

unfoldable pub set_pricing_config : UsageStore → ℤ → String → ℕ → UsageStore × Reply ℕ
set_pricing_config s ppm updated_by now = price_with s updated_by now (normalize_multiplier ppm)

-- 1 <= max_keys <= 100, where it is given
abbrev pub keys_in_range : Option ℤ → Bool
keys_in_range none = true
keys_in_range (some (pos n)) = leb 1 n && leb n 100
keys_in_range (some (negsuc n)) = false

abbrev pub or_keys : ℕ → Option ℤ → ℕ
or_keys old (some (pos n)) = n
or_keys old _ = old

abbrev pub new_permission : String → ℕ → Permission
new_permission user_id now = record {
  user_id = user_id;
  enabled = false;
  created_at = now;
  updated_at = now;
  updated_by = "";
  max_keys = default_max_keys;
  balance_microusd = some (pos 0);
  reserved_microusd = 0;
}

abbrev pub permission_or_new : String → ℕ → Option Permission → Permission
permission_or_new user_id now none = new_permission user_id now
permission_or_new user_id now (some row) = row

abbrev pub revised : Permission → String → Bool → String → Option ℤ → ℕ → Permission
revised row user_id enabled updated_by max_keys now = record row {
  user_id = user_id;
  enabled = enabled;
  updated_at = now;
  updated_by = updated_by;
  max_keys = or_keys row.max_keys max_keys;
}

unfoldable pub set_permission :
    UsageStore → String → Bool → String → Option ℤ → ℕ → UsageStore × Reply Permission
set_permission s user_id enabled updated_by max_keys now =
    if user_id == "" || not (keys_in_range max_keys)
    then (s, raises Failure.key_conflict)
    else let row : Permission =
        revised (permission_or_new user_id now (get s.permissions user_id)) user_id enabled
          updated_by max_keys now in
      (record s { permissions = put s.permissions user_id row }, returns row)

-- The call as it is made.
pub record Grant : Type 0 where
  pub user_id : String
  pub amount_microusd : ℤ
  pub reason : String
  pub idempotency_key : String
  pub updated_by : String
  pub entry_id : String

abbrev pub is_positive : ℤ → Bool
is_positive (pos n) = leb 1 n
is_positive (negsuc n) = false

abbrev pub size_of : ℤ → ℕ
size_of (pos n) = n
size_of (negsuc n) = 0

abbrev pub same_amount : ℤ → ℤ → Bool
same_amount (pos a) (pos b) = eqb a b
same_amount (negsuc a) (negsuc b) = eqb a b
same_amount _ _ = false

-- next((row for row in rows if p(row)), None)
module _ {A : Type 0} where
  unfoldable pub first_of : (A → Bool) → List A → Option A
  first_of p [] = none
  first_of p (x ∷ xs) = if p x then some x else first_of p xs

abbrev pub is_repeat : Grant → LedgerEntry → Bool
is_repeat g row = row.user_id == g.user_id && row.idempotency_key == g.idempotency_key

-- `int(current) if current is not None else 0`
abbrev pub balance_or_zero : Option ℤ → ℤ
balance_or_zero none = pos 0
balance_or_zero (some z) = z

abbrev pub grant_entry : Grant → ℤ → ℕ → LedgerEntry
grant_entry g balance now = record {
  id = g.entry_id;
  user_id = g.user_id;
  idempotency_key = g.idempotency_key;
  entry_type = EntryType.grant;
  amount_microusd = g.amount_microusd;
  balance_after_microusd = balance;
  request_id = none;
  key_id = none;
  reason = g.reason;
  created_by = g.updated_by;
  created_at = now;
}

abbrev pub grant_to : UsageStore → Grant → ℕ → Permission → UsageStore × Reply LedgerEntry
grant_to s g now row =
    let balance = plus (balance_or_zero row.balance_microusd) (size_of g.amount_microusd) in
    (
      record s {
        permissions = put s.permissions g.user_id (record row {
          balance_microusd = some balance;
          updated_at = now;
          updated_by = g.updated_by;
        });
        credit_ledger = s.credit_ledger ++ grant_entry g balance now ∷ [];
      },
      returns (grant_entry g balance now),
    )

abbrev pub grant_once :
    UsageStore → Grant → ℕ → Permission → Option LedgerEntry → UsageStore × Reply LedgerEntry
grant_once s g now row none = grant_to s g now row
grant_once s g now row (some existing) =
    if same_amount existing.amount_microusd g.amount_microusd && existing.reason == g.reason
    then (s, returns existing)
    else (s, raises Failure.key_conflict)

abbrev pub grant_found : UsageStore → Grant → ℕ → Option Permission → UsageStore × Reply LedgerEntry
grant_found s g now none = (s, raises Failure.unknown)
grant_found s g now (some row) = grant_once s g now row (first_of (is_repeat g) s.credit_ledger)

unfoldable pub grant_credit : UsageStore → Grant → ℕ → UsageStore × Reply LedgerEntry
unfolding first_of
grant_credit s g now =
    if not (is_positive g.amount_microusd)
    then (s, raises Failure.key_conflict)
    else grant_found s g now (get s.permissions g.user_id)

abbrev pub is_due : String → ℕ → ProjectRequest → Bool
is_due owner now r = r.owner_user_id == owner && is_reserved r.state && leb r.expires_at now

abbrev pub release_due : String → ℕ → ProjectRequest → ProjectRequest
release_due owner now r =
    if is_due owner now r then record r { state = RequestState.released; updated_at = now } else r

abbrev pub is_pending : String → ProjectRequest → Bool
is_pending owner r = r.owner_user_id == owner && is_reserved r.state

abbrev pub revoke_of : String → ℕ → ApiKey → ApiKey
revoke_of owner now key =
    if key.owner_user_id == owner && is_active key.status
    then record key { status = KeyStatus.revoked; revoked_at = some now }
    else key

abbrev pub release_all : UsageStore → String → ℕ → UsageStore
release_all s owner now = record s {
  requests = sweep (λ r. some (release_due owner now r)) s.requests;
}

abbrev pub delete_found :
    UsageStore → String → ℕ → Option Permission → UsageStore × Reply Permission
delete_found s owner now none = (s, raises Failure.unknown)
delete_found s owner now (some row) = (
  record s {
    permissions = pop s.permissions owner;
    keys = sweep (λ key. some (revoke_of owner now key)) s.keys;
  },
  returns row,
)

-- Requests that are released stay released also where the call raises.
unfoldable pub delete_permission : UsageStore → String → ℕ → UsageStore × Reply Permission
delete_permission s owner now =
    let s' = release_all s owner now in
    if any_of (is_pending owner) (values s'.requests)
    then (s', raises Failure.key_conflict)
    else delete_found s' owner now (get s'.permissions owner)
