-- ===== src/ChatQuota/Reserve.antt =====
-- `reserve`, `finalize` and `reset_quota_windows` (branding/open-webui/turtle_chat/store.py). A
-- call is one transaction: where it raises, the tables are as before. The rules are those of the
-- user's policy; `now` is read once a call, and `draw` gives the identifier that is drawn for the
-- window of a key.
use turtle_chat.Prelude.{
  ℕ, zero, suc, ◌+◌, min, max, String, Bool, true, false, not, ◌&&◌, Option, none, some, ◌==◌,
  string_eq, pair_eq, List, [], ◌∷◌, ◌++◌, ltb, if◌then◌else◌, length, map, ℤ, at_least,
}
use turtle_chat.Dict.{Dict, get, pop}
use turtle_chat.ChatQuota.Rules.{Rule, has, is_known, selection_by_key, Selection}
use turtle_chat.ChatQuota.Usage.{
  Tables, Usage, UsageStatus, Window, Status, is_held, cleanup_stale, window_counts, model_statuses,
  ensure_window,
}

-- The call as it is made, with the identifiers that are drawn.
pub record Order : Type 0 where
  pub id : String
  pub request_id : String
  pub user_id : String
  pub requested_key : String
  pub model_id : Option String
  pub now : ℕ
  pub draw : String → String

-- What the loop tries of one lane: the tables, whether it has room, when it opens anew, and the
-- window.
pub record Tried : Type 0 where
  pub tables : Tables
  pub available : Bool
  pub reset_at : Option ℕ
  pub quota_window_id : Option String

-- How the loop over the fallbacks ends: with a lane, or in one of its exceptions. Where the fuel
-- runs out it is unfinished.
pub data Walk : Type 0 where
  finds : String → Tried → Walk
  exhausted : Option ℕ → Walk
  cycles missing unfinished : Walk

-- min(resets) if resets else None
abbrev pub earliest : List ℕ → Option ℕ
earliest [] = none
earliest (x ∷ xs) = some (least x xs)
  where
    least : ℕ → List ℕ → ℕ
    least a [] = a
    least a (b ∷ bs) = least (min a b) bs

abbrev pub add_reset : Option ℕ → List ℕ → List ℕ
add_reset none resets = resets
add_reset (some reset) resets = resets ++ reset ∷ []

abbrev pub is_allowed : Option Status → Bool
is_allowed none = false
is_allowed (some status) = status.allowed

module _ (o : Order) (statuses : Dict String Status) where
  abbrev pub try_window : Tables × Window → String → Status → ℕ → Tried
  try_window (t, window) key status limit =
      let used = window_counts t o.user_id key window.window_id in
      let reset = some (window.started_at + status.window_seconds) in
      if ltb (used.0 + used.1) limit
      then record {
        tables = t;
        available = true;
        reset_at = reset;
        quota_window_id = some window.window_id;
      }
      else record { tables = t; available = false; reset_at = reset; quota_window_id = none }

  abbrev pub try_open : Tables → String → Status → Option ℕ → Tried
  try_open t key status none = record {
    tables = t;
    available = true;
    reset_at = status.reset_at;
    quota_window_id = none;
  }
  try_open t key status (some limit) =
      try_window (ensure_window t o.user_id key o.now (o.draw key)) key status limit

  abbrev pub try_lane : Tables → String → Status → Tried
  try_lane t key status =
      if status.available then try_open t key status status.limit_count else record {
        tables = t;
        available = false;
        reset_at = status.reset_at;
        quota_window_id = none;
      }

  -- The fallback, where it is allowed; `next` is the next round.
  abbrev pub fall_back : List ℕ → Option String → (String → Walk) → Walk
  fall_back resets none next = exhausted (earliest resets)
  fall_back resets (some fallback) next =
      if is_allowed (get statuses fallback) then next fallback else exhausted (earliest resets)

  abbrev pub walk_tried :
      List ℕ → String → Status → Tried → (Tables → List ℕ → String → Walk) → Walk
  walk_tried resets key status tried next =
      if tried.available
      then finds key tried
      else fall_back (add_reset tried.reset_at resets) status.fallback_key
          (next tried.tables (add_reset tried.reset_at resets))

  abbrev pub walk_status :
      Tables → List ℕ → String → Option Status → (Tables → List ℕ → String → Walk) → Walk
  walk_status t resets key none next = missing
  walk_status t resets key (some status) next =
      walk_tried resets key status (try_lane t key status) next

  unfoldable pub walk : ℕ → Tables → List String → List ℕ → String → Walk
  walk zero t visited resets key = unfinished
  walk (suc fuel) t visited resets key =
      if has key visited
      then cycles
      else walk_status t resets key (get statuses key)
          (λ t' resets' fallback. walk fuel t' (key ∷ visited) resets' fallback)

abbrev pub differs_from : String → String → Option String
differs_from requested key = if key == requested then none else some requested

abbrev pub usage_row : Order → String → Option String → Usage
usage_row o key quota_window_id = record {
  id = o.id;
  request_id = o.request_id;
  user_id = o.user_id;
  selection_key = key;
  quota_window_id = quota_window_id;
  requested_selection_key = o.requested_key;
  fallback_from = differs_from o.requested_key key;
  status = UsageStatus.reserved;
  usage_units = 1;
  created_at = o.now;
  finalized_at = none;
}

pub data Outcome : Type 0 where
  reserves : Usage → Outcome
  forbidden unknown_key wrong_model looped crashed endless : Outcome
  model_quota : Option ℕ → Outcome

abbrev pub conclude : Tables → Order → Walk → Tables × Outcome
conclude before o (finds key tried) =
    let row = usage_row o key tried.quota_window_id in
    (record tried.tables { chat_usage = tried.tables.chat_usage ++ row ∷ [] }, reserves row)
conclude before o (exhausted reset_at) = (before, model_quota reset_at)
conclude before o cycles = (before, looped)
conclude before o missing = (before, crashed)
conclude before o unfinished = (before, endless)

abbrev pub in_model : Option String → Option Selection → Bool
in_model none selection = true
in_model (some model_id) none = false
in_model (some model_id) (some selection) = selection.model_id == model_id

abbrev pub reserve_in : Tables → Order → Tables × Dict String Status → Tables × Outcome
reserve_in before o (t, statuses) =
    if is_allowed (get statuses o.requested_key)
    then conclude before o (walk o statuses (length statuses + 1) t [] [] o.requested_key)
    else (before, forbidden)

unfoldable pub reserve : Tables → Dict String Rule → Order → Tables × Outcome
unfolding walk
reserve t rules o =
    if not (is_known o.requested_key)
    then (t, unknown_key)
    else if not (in_model o.model_id (selection_by_key o.requested_key))
    then (t, wrong_model)
    else reserve_in t o (model_statuses (cleanup_stale t o.user_id o.now) o.user_id o.now rules)

-- max(1, min(1000, int(usage_units)))
abbrev pub normalized_units : ℤ → ℕ
normalized_units units = max 1 (min 1000 (at_least 0 units))

abbrev pub finalize_row : String → UsageStatus → ℕ → ℕ → Usage → Usage
finalize_row id status units now row =
    if row.id == id && is_held row.status
    then record row { status = status; finalized_at = some now; usage_units = units }
    else row

-- The status is committed, with its units, or released.
unfoldable pub finalize : Tables → String → Bool → ℤ → ℕ → Tables
finalize t id is_success units now = record t {
  chat_usage =
      map
        (if is_success
          then finalize_row id UsageStatus.committed (normalized_units units) now
          else finalize_row id UsageStatus.released 1 now)
        t.chat_usage;
}

-- DELETE FROM chat_quota_window WHERE user_id = ?
abbrev pub drop_windows : String → Dict (String × String) Window → Dict (String × String) Window
drop_windows user_id [] = []
drop_windows user_id ((key, window) ∷ windows) =
    let rest = drop_windows user_id windows in
    if key.0 == user_id then rest else (key, window) ∷ rest

-- The answer is whether the call returns.
unfoldable pub reset_quota_windows : Tables → String → Option String → Tables × Bool
reset_quota_windows t user_id none =
    (record t { chat_quota_window = drop_windows user_id t.chat_quota_window }, true)
reset_quota_windows t user_id (some key) =
    if is_known key
    then (record t { chat_quota_window = pop t.chat_quota_window (user_id, key) }, true)
    else (t, false)
