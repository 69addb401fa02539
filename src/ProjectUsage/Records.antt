-- ===== src/ProjectUsage/Records.antt =====
-- `record` of `MemoryProjectUsageStore` (src/chatgpt_web_gateway/project_usage.py).
use Prim.Native.String.{◌++◌ as text_append}
use turtle_chat.Prelude.{
  ℕ, ◌+◌, ◌-◌, String, Bool, ◌&&◌, Option, none, some, ◌==◌, string_eq, pair_eq, [], ◌∷◌, ◌++◌, eqb,
  if◌then◌else◌, ℤ, pos, minus,
}
use turtle_chat.Dict.{get, put}
use turtle_chat.ProjectUsage.Types.{
  Permission, ApiKey, ProjectRequest, RequestState, UsageEntry, LedgerEntry, EntryType, UsageStore,
}
use turtle_chat.ProjectUsage.Cost.{charged, official_of}
use turtle_chat.ProjectUsage.Permissions.{first_of}

-- What the gateway reports of a finished call; the identifiers are those that it gives, or new.
pub record Spent : Type 0 where
  pub id : String
  pub ledger_id : String
  pub key_id : String
  pub request_id : String
  pub total_tokens : ℕ
  pub official_cost_microusd : Option ℤ
  pub estimated_cost_microusd : Option ℤ
  pub created_at : ℕ

pub data Recorded : Type 0 where
  missing_key : Recorded
  duplicate : String → Recorded
  recorded : String → ℕ → Option ℤ → Recorded

abbrev pub is_recorded : String → String → UsageEntry → Bool
is_recorded key_id request_id item = item.key_id == key_id && item.request_id == request_id

abbrev pub multiplier_of : UsageStore → Option ProjectRequest → ℕ
multiplier_of s none = s.config.cost_multiplier_ppm
multiplier_of s (some r) = r.cost_multiplier_ppm

abbrev pub usage_entry : Spent → ℕ → UsageEntry
usage_entry e ppm =
    let official = official_of e.official_cost_microusd e.estimated_cost_microusd in
    record {
      id = e.id;
      key_id = e.key_id;
      request_id = e.request_id;
      total_tokens = e.total_tokens;
      official_cost_microusd = official;
      cost_multiplier_ppm = ppm;
      estimated_cost_microusd = charged official ppm;
      created_at = e.created_at;
    }

abbrev pub used_key : ApiKey → UsageEntry → ApiKey
used_key row item = record row {
  last_used_at = some item.created_at;
  request_count = row.request_count + 1;
  total_tokens = row.total_tokens + item.total_tokens;
  total_official_cost_microusd = row.total_official_cost_microusd + item.official_cost_microusd;
  total_estimated_cost_microusd = row.total_estimated_cost_microusd + item.estimated_cost_microusd;
}

abbrev pub log_usage : UsageStore → ApiKey → UsageEntry → UsageStore
log_usage s row item = record s {
  usage = s.usage ++ item ∷ [];
  keys = put s.keys item.key_id (used_key row item);
}

-- `if request_row is not None and permission is not None`
unfoldable pub settle_request :
    UsageStore
    → String
    → String × String
    → ℕ
    → Option ProjectRequest
    → Permission
    → UsageStore × Permission
settle_request s owner key now none row = (s, row)
settle_request s owner key now (some r) row =
    let row' : Permission = record row {
      reserved_microusd = row.reserved_microusd - r.reserved_microusd;
    } in
    (
      record s {
        permissions = put s.permissions owner row';
        requests =
            put s.requests key (record r { state = RequestState.completed; updated_at = now });
      },
      row',
    )

-- -n for a natural number
abbrev pub negative : ℕ → ℤ
negative n = minus (pos 0) n

abbrev pub usage_ledger : ApiKey → Spent → UsageEntry → ℤ → LedgerEntry
usage_ledger key e item balance = record {
  id = e.ledger_id;
  user_id = key.owner_user_id;
  idempotency_key =
      text_append "usage:" (text_append item.key_id (text_append ":" item.request_id));
  entry_type = EntryType.usage;
  amount_microusd = negative item.estimated_cost_microusd;
  balance_after_microusd = balance;
  request_id = some item.request_id;
  key_id = some item.key_id;
  reason = text_append "项目 " (text_append key.name " API 调用");
  created_by = "system";
  created_at = item.created_at;
}

abbrev pub charge_balance :
    UsageStore → ApiKey → Spent → UsageEntry → Permission → Option ℤ → UsageStore × Option ℤ
charge_balance s key e item row none = (s, none)
charge_balance s key e item row (some old) =
    if eqb item.estimated_cost_microusd 0
    then (s, some old)
    else let balance = minus old item.estimated_cost_microusd in
      (
        record s {
          permissions =
              put s.permissions key.owner_user_id (record row { balance_microusd = some balance });
          credit_ledger = s.credit_ledger ++ usage_ledger key e item balance ∷ [];
        },
        some balance,
      )

abbrev pub charge_row :
    UsageStore → ApiKey → Spent → UsageEntry → Permission → UsageStore × Option ℤ
charge_row s key e item row = charge_balance s key e item row row.balance_microusd

abbrev pub charge_with :
    UsageStore
    → ApiKey
    → Spent
    → UsageEntry
    → ℕ
    → Option ProjectRequest
    → Option Permission
    → UsageStore × Option ℤ
charge_with s key e item now request none = (s, none)
charge_with s key e item now request (some row) =
    let settled = settle_request s key.owner_user_id (e.key_id, e.request_id) now request row in
    charge_row settled.0 key e item settled.1

abbrev pub item_of : UsageStore → Spent → UsageEntry
item_of s e = usage_entry e (multiplier_of s (get s.requests (e.key_id, e.request_id)))

unfoldable pub record_new : UsageStore → ApiKey → Spent → ℕ → UsageStore × Option ℤ
unfolding settle_request
record_new s key e now =
    charge_with (log_usage s key (item_of s e)) key e (item_of s e) now
      (get s.requests (e.key_id, e.request_id)) (get s.permissions key.owner_user_id)

unfoldable pub record_once :
    UsageStore → ApiKey → Spent → ℕ → Option UsageEntry → UsageStore × Recorded
unfolding record_new
record_once s key e now (some item) = (s, duplicate item.id)
record_once s key e now none =
    let r = record_new s key e now in (r.0, recorded e.id (item_of s e).estimated_cost_microusd r.1)

abbrev pub record_found : UsageStore → Spent → ℕ → Option ApiKey → UsageStore × Recorded
record_found s e now none = (s, missing_key)
record_found s e now (some key) =
    record_once s key e now (first_of (is_recorded e.key_id e.request_id) s.usage)

unfoldable pub record_usage : UsageStore → Spent → ℕ → UsageStore × Recorded
unfolding record_once first_of
record_usage s e now = record_found s e now (get s.keys e.key_id)
