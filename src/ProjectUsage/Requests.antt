-- ===== src/ProjectUsage/Requests.antt =====
-- `begin_request` of `MemoryProjectUsageStore`
-- (src/chatgpt_web_gateway/project_usage.py).
use turtle_chat.Prelude.{
  ℕ, ◌+◌, ◌-◌, String, Bool, false, not, Option, none, some, string_eq, pair_eq, List, [], ◌∷◌,
  if◌then◌else◌, select, ℤ, at_least, minus, below,
}
use turtle_chat.Dict.{get, put, values}
use turtle_chat.ProjectUsage.Types.{
  Permission, ApiKey, ProjectRequest, RequestState, UsageStore, Failure, Reply, returns, raises,
}
use turtle_chat.ProjectUsage.Cost.{actual_cost}
use turtle_chat.ProjectUsage.Permissions.{is_due, release_all}

abbrev pub request_ttl_seconds : ℕ
request_ttl_seconds = 1200

-- The loop over the expired requests: max(0, reserved - r) for each.
unfoldable pub give_back : ℕ → List ProjectRequest → ℕ
give_back reserved [] = reserved
give_back reserved (r ∷ rs) = give_back (reserved - r.reserved_microusd) rs

abbrev pub new_request : String → String → String → ℕ → ℕ → ℕ → ProjectRequest
new_request key_id request_id owner reserved ppm now = record {
  key_id = key_id;
  request_id = request_id;
  owner_user_id = owner;
  state = RequestState.reserved;
  reserved_microusd = reserved;
  cost_multiplier_ppm = ppm;
  created_at = now;
  updated_at = now;
  expires_at = now + request_ttl_seconds;
}

-- `available is not None and available < reserved`
abbrev pub lacks : Option ℤ → ℕ → ℕ → Bool
lacks none held reserved = false
lacks (some balance) held reserved = below (minus balance held) reserved

-- The permission and the requests once what had expired is released.
abbrev pub refreshed : UsageStore → String → Permission → ℕ → UsageStore
refreshed s owner row now =
    let s' = release_all s owner now in
    record s' {
      permissions = put s.permissions owner (record row {
        reserved_microusd =
            give_back row.reserved_microusd (select (is_due owner now) (values s.requests));
      });
    }

unfoldable pub reserve_for :
    UsageStore → String → String → String → Permission → ℕ → ℕ → UsageStore × Reply ProjectRequest
unfolding actual_cost
reserve_for s key_id request_id owner row authorized now =
    let ppm = s.config.cost_multiplier_ppm in
    let reserved = actual_cost authorized ppm in
    if lacks row.balance_microusd row.reserved_microusd reserved
    then (s, raises Failure.balance_insufficient)
    else (
      record s {
        permissions =
            put s.permissions owner
              (record row { reserved_microusd = row.reserved_microusd + reserved });
        requests =
            put s.requests (key_id, request_id)
              (new_request key_id request_id owner reserved ppm now);
      },
      returns (new_request key_id request_id owner reserved ppm now),
    )

abbrev pub held_back : UsageStore → String → Permission → ℕ → Permission
held_back s owner row now = record row {
  reserved_microusd =
      give_back row.reserved_microusd (select (is_due owner now) (values s.requests));
}

unfoldable pub begin_for :
    UsageStore
    → String
    → String
    → ApiKey
    → ℕ
    → ℕ
    → Option Permission
    → UsageStore × Reply ProjectRequest
unfolding reserve_for give_back
begin_for s key_id request_id key authorized now none = (s, raises Failure.permission_denied)
begin_for s key_id request_id key authorized now (some row) =
    if not row.enabled
    then (s, raises Failure.permission_denied)
    else reserve_for (refreshed s key.owner_user_id row now) key_id request_id key.owner_user_id
        (held_back s key.owner_user_id row now) authorized now

abbrev pub begin_with :
    UsageStore → String → String → ℕ → ℕ → Option ApiKey → UsageStore × Reply ProjectRequest
begin_with s key_id request_id authorized now none = (s, raises Failure.unknown)
begin_with s key_id request_id authorized now (some key) =
    begin_for s key_id request_id key authorized now (get s.permissions key.owner_user_id)

abbrev pub begin_new :
    UsageStore → String → String → ℕ → ℕ → Option ProjectRequest → UsageStore × Reply ProjectRequest
begin_new s key_id request_id authorized now (some used) = (s, raises Failure.request_conflict)
begin_new s key_id request_id authorized now none =
    begin_with s key_id request_id authorized now (get s.keys key_id)

unfoldable pub begin_request :
    UsageStore → String → String → ℤ → ℕ → UsageStore × Reply ProjectRequest
unfolding begin_for
begin_request s key_id request_id authorization now =
    begin_new s key_id request_id (at_least 0 authorization) now
      (get s.requests (key_id, request_id))
