-- ===== src/Concurrency/Entry.antt =====
-- The entries, settings and state of `ChatConcurrencyCoordinator` with its in-memory backend
-- (branding/open-webui/turtle_chat/concurrency.py).
use turtle_chat.Prelude.{
  ℕ, String, Bool, true, false, Option, ◌==◌, string_eq, if◌then◌else◌, ℤ, at_least, min, max, [],
}
use turtle_chat.Dict.{Dict}

-- What `os.getenv` and `int` make of a variable: not set, no integer, or an integer.
pub data EnvValue : Type 0 where
  unset malformed : EnvValue
  number : ℤ → EnvValue

unfoldable pub positive_env : EnvValue → ℕ → ℕ → ℕ
positive_env unset default maximum = min maximum (max 1 default)
positive_env malformed default maximum = default
positive_env (number value) default maximum = min maximum (at_least 1 value)

abbrev pub Environment : Type 0
Environment = String → EnvValue

pub record Limits : Type 0 where
  pub user : ℕ
  pub group : ℕ
  pub account_pool : ℕ
  pub provider : ℕ
  pub global : ℕ

pub data EntryState : Type 0 where
  queued admitted completed cancelled timed_out failed : EntryState

abbrev pub is_queued : EntryState → Bool
is_queued queued = true
is_queued _ = false

abbrev pub is_admitted : EntryState → Bool
is_admitted admitted = true
is_admitted _ = false

-- One dictionary of `_memory_entries`; the five limit fields are `limits`.
pub record Entry : Type 0 where
  pub request_id : String
  pub user_id : String
  pub group_id : String
  pub provider : String
  pub account_pool_id : String
  pub limits : Limits
  pub queued_at_ms : ℕ
  pub sequence : ℕ
  pub state : EntryState
  pub outcome : Option String
  pub admitted_at_ms : Option ℕ
  pub lease_expires_at_ms : Option ℕ
  pub completed_at_ms : Option ℕ

abbrev pub Entries : Type 0
Entries = Dict String Entry

pub record Coordinator : Type 0 where
  pub env : Environment
  pub queue_timeout_seconds : ℕ
  pub lease_seconds : ℕ
  pub status_ttl_seconds : ℕ
  pub global_limit : ℕ
  pub memory_sequence : ℕ
  pub memory_entries : Entries

-- `__init__`, less the fields of the Redis backend.
unfoldable pub init : Environment → Coordinator
unfolding positive_env
init env = record {
  env = env;
  queue_timeout_seconds = positive_env (env "TURTLE_CHAT_QUEUE_TIMEOUT_SECONDS") 120 3600;
  lease_seconds = positive_env (env "TURTLE_CHAT_LEASE_SECONDS") 1200 7200;
  status_ttl_seconds = positive_env (env "TURTLE_CHAT_STATUS_TTL_SECONDS") 300 3600;
  global_limit = positive_env (env "TURTLE_CHAT_MAX_CONCURRENCY") 32 1000;
  memory_sequence = 0;
  memory_entries = [];
}

unfoldable pub provider_limit : Environment → String → ℕ
unfolding positive_env
provider_limit env provider =
    if provider == "gpt"
    then positive_env (env "TURTLE_GPT_MAX_CONCURRENCY") 24 1000
    else if provider == "claude"
    then positive_env (env "TURTLE_CLAUDE_MAX_CONCURRENCY") 4 1000
    else positive_env (env "TURTLE_OTHER_MAX_CONCURRENCY") 2 1000
