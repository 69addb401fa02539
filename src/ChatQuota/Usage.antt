-- ===== src/ChatQuota/Usage.antt =====
-- The tables `chat_usage` and `chat_quota_window`, and `_cleanup_stale`, `_window_counts`,
-- `_model_statuses` and `_ensure_window` (branding/open-webui/turtle_chat/store.py). Every window
-- has an identifier: the upgrade of rows that are older than these is left out, and so are the
-- times and the outcome that a row of usage only keeps.
use turtle_chat.Prelude.{
  ℕ, ◌+◌, ◌-◌, ◌*◌, String, Bool, true, false, not, ◌&&◌, Option, none, some, ◌==◌, string_eq,
  pair_eq, List, [], ◌∷◌, leb, ltb, eqb, if◌then◌else◌, sum_of, map,
}
use turtle_chat.Dict.{Dict, get, put, pop}
use turtle_chat.ChatQuota.Rules.{Rule}

pub data UsageStatus : Type 0 where
  reserved committed released : UsageStatus

pub record Usage : Type 0 where
  pub id : String
  pub request_id : String
  pub user_id : String
  pub selection_key : String
  pub quota_window_id : Option String
  pub requested_selection_key : String
  pub fallback_from : Option String
  pub status : UsageStatus
  pub usage_units : ℕ
  pub created_at : ℕ
  pub finalized_at : Option ℕ

pub record Window : Type 0 where
  pub started_at : ℕ
  pub window_id : String

pub record Tables : Type 0 where
  pub chat_usage : List Usage
  pub chat_quota_window : Dict (String × String) Window

abbrev pub stale_reservation_seconds : ℕ
stale_reservation_seconds = 60 * 60

abbrev pub is_held : UsageStatus → Bool
is_held reserved = true
is_held _ = false

abbrev pub is_committed : UsageStatus → Bool
is_committed committed = true
is_committed _ = false

abbrev pub release_stale : String → ℕ → Usage → Usage
release_stale user_id now row =
    if row.user_id == user_id
      && is_held row.status
      && ltb (row.created_at + stale_reservation_seconds) now
    then record row { status = UsageStatus.released; finalized_at = some now }
    else row

abbrev pub cleanup_stale : Tables → String → ℕ → Tables
cleanup_stale t user_id now = record t { chat_usage = map (release_stale user_id now) t.chat_usage }

abbrev pub same_window : Option String → String → Bool
same_window none window_id = false
same_window (some id) window_id = id == window_id

abbrev pub counts_in : String → String → String → Usage → Bool
counts_in user_id key window_id row =
    row.user_id == user_id && row.selection_key == key && same_window row.quota_window_id window_id

abbrev pub committed_units : String → String → String → Usage → ℕ
committed_units user_id key window_id row =
    if counts_in user_id key window_id row && is_committed row.status then row.usage_units else 0

abbrev pub reserved_units : String → String → String → Usage → ℕ
reserved_units user_id key window_id row =
    if counts_in user_id key window_id row && is_held row.status then row.usage_units else 0

-- `_window_counts`: the committed and the reserved units of a window.
unfoldable pub window_counts : Tables → String → String → String → ℕ × ℕ
window_counts t user_id key window_id = (
  sum_of (committed_units user_id key window_id) t.chat_usage,
  sum_of (reserved_units user_id key window_id) t.chat_usage,
)

pub record Status : Type 0 where
  pub allowed : Bool
  pub available : Bool
  pub limit_count : Option ℕ
  pub window_seconds : ℕ
  pub reset_at : Option ℕ
  pub fallback_key : Option String

abbrev pub status_of : Rule → Bool → Option ℕ → Status
status_of rule available reset_at = record {
  allowed = rule.enabled;
  available = rule.enabled && available;
  limit_count = rule.limit_count;
  window_seconds = rule.window_seconds;
  reset_at = reset_at;
  fallback_key = rule.fallback_key;
}

-- The status under a limit, by the window that is stored.
abbrev pub limited_status :
    Tables → String → String → Rule → ℕ → ℕ → Option Window → Tables × Status
limited_status t user_id key rule limit now none = (t, status_of rule (not (eqb limit 0)) none)
limited_status t user_id key rule limit now (some window) =
    let reset_at = window.started_at + rule.window_seconds in
    if leb reset_at now
    then (
      record t { chat_quota_window = pop t.chat_quota_window (user_id, key) },
      status_of rule (not (eqb limit 0)) none,
    )
    else let used = window_counts t user_id key window.window_id in
      (t, status_of rule (not (eqb (limit - used.0 - used.1) 0)) (some reset_at))

abbrev pub status_under : Tables → String → String → Rule → ℕ → Option ℕ → Tables × Status
status_under t user_id key rule now none = (t, status_of rule true none)
status_under t user_id key rule now (some limit) =
    if rule.enabled
    then limited_status t user_id key rule limit now (get t.chat_quota_window (user_id, key))
    else (t, status_of rule true none)

abbrev pub model_statuses : Tables → String → ℕ → Dict String Rule → Tables × Dict String Status
model_statuses t user_id now [] = (t, [])
model_statuses t user_id now ((key, rule) ∷ rules) =
    let first = status_under t user_id key rule now rule.limit_count in
    let rest = model_statuses first.0 user_id now rules in (rest.0, (key, first.1) ∷ rest.1)

-- INSERT ... ON CONFLICT DO NOTHING, then SELECT
abbrev pub window_or_new : ℕ → String → Option Window → Window
window_or_new now window_id none = record { started_at = now; window_id = window_id }
window_or_new now window_id (some window) = window

abbrev pub ensure_window : Tables → String → String → ℕ → String → Tables × Window
ensure_window t user_id key now window_id =
    let window = window_or_new now window_id (get t.chat_quota_window (user_id, key)) in
    (record t { chat_quota_window = put t.chat_quota_window (user_id, key) window }, window)
