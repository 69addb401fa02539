-- ===== src/ProjectUsage/Keys.antt =====
-- `create_key`, `authenticate` and `revoke_key` of `MemoryProjectUsageStore`
-- (src/chatgpt_web_gateway/project_usage.py). The digest of a secret under the master key, the
-- casefold of a name and the number of its characters are parameters; the secret that a new key
-- has and the identifier that `uuid.uuid4` makes are arguments.
use turtle_chat.Prelude.{
  ℕ, String, Bool, false, not, ◌&&◌, ◌||◌, Option, none, some, ◌==◌, string_eq, leb, ltb, eqb,
  if◌then◌else◌, any_of,
}
use turtle_chat.Dict.{get, put, values, count}
use turtle_chat.ProjectUsage.Types.{
  Permission, ApiKey, KeyStatus, is_active, UsageStore, Failure, Reply, returns, raises,
}
use turtle_chat.ProjectUsage.Permissions.{default_max_keys, first_of}

-- What the store takes from Python's libraries.
pub record Texts : Type 0 where
  pub digest : String → String
  pub casefold : String → String
  pub size : String → ℕ

abbrev pub is_enabled : Option Permission → Bool
is_enabled none = false
is_enabled (some row) = row.enabled

-- `int(permission.get("max_keys") or DEFAULT_MAX_KEYS)`
abbrev pub key_limit : Option Permission → ℕ
key_limit none = default_max_keys
key_limit (some row) = if eqb row.max_keys 0 then default_max_keys else row.max_keys

abbrev pub owned_active : String → ApiKey → Bool
owned_active owner row = row.owner_user_id == owner && is_active row.status

-- The new key: its identifier, its visible part and its whole text.
pub record Secret : Type 0 where
  pub key_id : String
  pub key_prefix : String
  pub plaintext : String

module _ (texts : Texts) where
  abbrev pub same_name : String → String → ApiKey → Bool
  same_name owner name row =
      texts.casefold row.name == texts.casefold name
      && row.owner_user_id == owner
      && is_active row.status

  abbrev pub new_key : String → String → Secret → ℕ → ApiKey
  new_key owner name secret now = record {
    id = secret.key_id;
    owner_user_id = owner;
    name = name;
    key_prefix = secret.key_prefix;
    key_digest = texts.digest secret.plaintext;
    status = KeyStatus.active;
    created_at = now;
    last_used_at = none;
    revoked_at = none;
    request_count = 0;
    total_tokens = 0;
    total_estimated_cost_microusd = 0;
    total_official_cost_microusd = 0;
  }

  unfoldable pub create_key : UsageStore → String → String → Secret → ℕ → UsageStore × Reply ApiKey
  create_key s owner name secret now =
      if not (is_enabled (get s.permissions owner))
      then (s, raises Failure.permission_denied)
      else if name == "" || ltb 80 (texts.size name)
      then (s, raises Failure.key_conflict)
      else if leb (key_limit (get s.permissions owner)) (count (owned_active owner) s.keys)
      then (s, raises Failure.key_conflict)
      else if any_of (same_name owner name) (values s.keys)
      then (s, raises Failure.key_conflict)
      else (
        record s { keys = put s.keys secret.key_id (new_key owner name secret now) },
        returns (new_key owner name secret now),
      )

  abbrev pub admits : UsageStore → String → ApiKey → Bool
  admits s secret row =
      is_active row.status
      && is_enabled (get s.permissions row.owner_user_id)
      && texts.digest secret == row.key_digest

  unfoldable pub authenticate : UsageStore → String → Option ApiKey
  unfolding first_of
  authenticate s secret = first_of (admits s secret) (values s.keys)

abbrev pub differs : Option String → String → Bool
differs none owner = false
differs (some id) owner = not (owner == id)

abbrev pub revoked_key : ApiKey → ℕ → ApiKey
revoked_key row now =
    if is_active row.status
    then record row { status = KeyStatus.revoked; revoked_at = some now }
    else row

abbrev pub revoke_found :
    UsageStore → String → Option String → ℕ → Option ApiKey → UsageStore × Reply ApiKey
revoke_found s key_id owner now none = (s, raises Failure.unknown)
revoke_found s key_id owner now (some row) =
    if differs owner row.owner_user_id then (s, raises Failure.unknown) else (
      record s { keys = put s.keys key_id (revoked_key row now) },
      returns (revoked_key row now),
    )

unfoldable pub revoke_key : UsageStore → String → Option String → ℕ → UsageStore × Reply ApiKey
revoke_key s key_id owner now = revoke_found s key_id owner now (get s.keys key_id)
