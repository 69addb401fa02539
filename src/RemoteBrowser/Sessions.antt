-- ===== src/RemoteBrowser/Sessions.antt =====
-- The store of links and cookies of the login browser
-- (src/chatgpt_web_gateway/remote_browser_sessions.py). A file that is not readable, private,
-- small and of the store's form is `invalid`. SHA-256, the number of a text's characters and the
-- test for white space are parameters; the secrets that are drawn are arguments, and so are the
-- two readings of the clock, the call's own and that of `_prune`.
use turtle_chat.Prelude.{
  ℕ, ◌+◌, min, max, String, Bool, false, not, ◌&&◌, Option, none, some, ◌==◌, string_eq, [], leb,
  if◌then◌else◌, ℤ, pos, negsuc,
}
use turtle_chat.Dict.{Dict, get, put, pop, sweep}

-- A value that is no dictionary is malformed.
pub data Entry : Type 0 where
  session : String → ℕ → Entry
  malformed : Entry

pub record Payload : Type 0 where
  pub pending : Dict String Entry
  pub connections : Dict String Entry

pub data File : Type 0 where
  missing invalid : File
  stored : Payload → File

-- What the store takes from Python's libraries.
pub record Texts : Type 0 where
  pub digest : String → String
  pub size : String → ℕ
  pub has_space : String → Bool

abbrev pub is_live : ℕ → Entry → Bool
is_live now (session account_id expires_at) = not (leb expires_at now)
is_live now malformed = false

abbrev pub is_of : String → Entry → Bool
is_of account_id (session a expires_at) = a == account_id
is_of account_id malformed = false

-- Entries that fail the test are popped.
abbrev pub kept : (Entry → Bool) → Entry → Option Entry
kept p entry = if p entry then some entry else none

abbrev pub empty_store : Payload
empty_store = record { pending = []; connections = [] }

abbrev pub load_store : File → Option Payload
load_store missing = some empty_store
load_store invalid = none
load_store (stored payload) = some payload

abbrev pub keep_both : (Entry → Bool) → Payload → Payload
keep_both p payload = record {
  pending = sweep (kept p) payload.pending;
  connections = sweep (kept p) payload.connections;
}

abbrev pub prune : Payload → ℕ → Payload
prune payload now = keep_both (is_live now) payload

abbrev pub drop_account : Payload → String → Payload
drop_account payload account_id = keep_both (λ entry. not (is_of account_id entry)) payload

-- A call that raises, `none`, leaves the file as it was.
module _ {A : Type 0} where
  abbrev pub write_back : File → Payload × Option A → File × Option A
  write_back file (payload, none) = (file, none)
  write_back file (payload, some a) = (stored payload, some a)

  abbrev pub locked_with :
      File → ℕ → (Payload → Payload × Option A) → Option Payload → File × Option A
  locked_with file now body none = (file, none)
  locked_with file now body (some payload) = write_back file (body (prune payload now))

  abbrev pub locked_store : File → ℕ → (Payload → Payload × Option A) → File × Option A
  locked_store file now body = locked_with file now body (load_store file)

-- now + max(30, min(int(ttl_seconds), 900))
abbrev pub expiry : ℕ → ℤ → ℕ
expiry now (pos ttl) = now + max 30 (min ttl 900)
expiry now (negsuc ttl) = now + 30

abbrev pub consumed : Payload → ℕ → Option Entry → Payload × Option (String × ℕ)
consumed payload now (some (session account_id expires_at)) =
    if leb expires_at now then (payload, none) else (payload, some (account_id, expires_at))
consumed payload now _ = (payload, none)

module _ (texts : Texts) where
  abbrev pub is_token : String → Bool
  is_token value =
      leb 32 (texts.size value) && leb (texts.size value) 256 && not (texts.has_space value)

  abbrev pub issued : Payload → String → ℕ → String → Payload
  issued payload account_id expires_at raw =
      let rest = drop_account payload account_id in
      record rest { pending = put rest.pending (texts.digest raw) (session account_id expires_at) }

  abbrev pub issue_body : String → ℕ → String → Payload → Payload × Option (String × ℕ)
  issue_body account_id expires_at raw payload =
      (issued payload account_id expires_at raw, some (raw, expires_at))

  unfoldable pub issue_pending_session :
      File → String → ℤ → String → ℕ → ℕ → File × Option (String × ℕ)
  issue_pending_session file account_id ttl_seconds raw now clock =
      locked_store file clock (issue_body account_id (expiry now ttl_seconds) raw)

  -- The link is popped first; what is written once it is found to be good.
  abbrev pub exchanged :
      Payload → String → ℕ → Option Entry → Payload × Option (String × String × ℕ)
  exchanged payload connection now (some (session account_id expires_at)) =
      if leb expires_at now then (payload, none) else (
        record payload {
          connections =
              put payload.connections (texts.digest connection) (session account_id expires_at);
        },
        some (connection, account_id, expires_at),
      )
  exchanged payload connection now _ = (payload, none)

  abbrev pub exchange_body : String → String → ℕ → Payload → Payload × Option (String × String × ℕ)
  exchange_body token connection now payload =
      exchanged (record payload { pending = pop payload.pending (texts.digest token) }) connection
        now (get payload.pending (texts.digest token))

  unfoldable pub exchange_pending_session :
      File → String → String → ℕ → ℕ → File × Option (String × String × ℕ)
  exchange_pending_session file token connection now clock =
      if not (is_token token)
      then (file, none)
      else locked_store file clock (exchange_body token connection now)

  abbrev pub consume_body : String → ℕ → Payload → Payload × Option (String × ℕ)
  consume_body cookie now payload =
      consumed (record payload { connections = pop payload.connections (texts.digest cookie) }) now
        (get payload.connections (texts.digest cookie))

  unfoldable pub consume_connection : File → String → ℕ → ℕ → File × Option (String × ℕ)
  consume_connection file cookie now clock =
      if not (is_token cookie)
      then (file, none)
      else locked_store file clock (consume_body cookie now)

abbrev pub revoke_body : String → Payload → Payload × Option (Unit {0})
revoke_body account_id payload = (drop_account payload account_id, some tt)

unfoldable pub revoke_account_sessions : File → String → ℕ → File × Option (Unit {0})
revoke_account_sessions file account_id clock = locked_store file clock (revoke_body account_id)
