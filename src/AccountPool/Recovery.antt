-- ===== src/AccountPool/Recovery.antt =====
-- `claim_rate_limit_recoveries` of `MemoryAccountStore`
-- (src/chatgpt_web_gateway/account_pool.py): leases to probe the lanes whose block is due. The
-- identifiers that `uuid.uuid4` makes are a parameter: that of the claim after n others. The
-- time at which a block was last written, which nothing reads, is left out.
pub mod Claims
use Prim.Native.Nat.{Ordering}
use Prim.Native.String.{compare}
use turtle_chat.Prelude.{
  ℕ, ◌+◌, String, Bool, true, false, not, ◌&&◌, ◌||◌, Option, none, some, ◌==◌, string_eq, List, [],
  ◌∷◌, ◌++◌, ltb, leb, eqb, if◌then◌else◌, length, ℤ, at_least,
}
use turtle_chat.Dict.{Dict, get, put, count}
use turtle_chat.AccountPool.Types.{
  Account, PoolLease, LeaseState, LaneBlock, AccountStore, is_active,
}
use turtle_chat.Prelude.{pair_eq}
use turtle_chat.AccountPool.Health.{is_status_ready, is_valid, is_fit}
use turtle_chat.AccountPool.Select.{capacity_of}
use turtle_chat.AccountPool.Store.{expire}

abbrev pub Due : Type 0
Due = (String × String) × LaneBlock

abbrev text_lt : String → String → Bool
text_lt a b = elim (compare a b) [ Ordering.lt ↦ true | _ ↦ false ]

abbrev key_lt : String × String → String × String → Bool
key_lt (a, b) (c, d) = text_lt a c || (a == c && text_lt b d)

abbrev due_lt : Due → Due → Bool
due_lt (j, x) (k, y) =
    ltb x.blocked_until y.blocked_until || (eqb x.blocked_until y.blocked_until && key_lt j k)

unfoldable pub insert_due : Due → List Due → List Due
insert_due x [] = x ∷ []
insert_due x (y ∷ ys) = let rest = insert_due x ys in if due_lt y x then y ∷ rest else x ∷ y ∷ ys

-- The blocks whose time has come, the longest due first.
unfoldable pub due_blocks : ℕ → Dict (String × String) LaneBlock → List Due
unfolding insert_due
due_blocks now [] = []
due_blocks now ((k, block) ∷ d) =
    let rest = due_blocks now d in
    if leb block.blocked_until now then insert_due (k, block) rest else rest

abbrev pub may_probe : Account → Bool
may_probe account =
    account.enabled
    && is_status_ready account.status
    && is_valid account.session_state
    && is_fit account.health_status

abbrev pub runs_now : String → ℕ → PoolLease → Bool
runs_now account_id now lease =
    lease.account_id == account_id && is_active lease.state && ltb now lease.expires_at

abbrev pub can_probe : AccountStore → ℕ → String → Account → Bool
can_probe s now account_id account =
    may_probe account && ltb (count (runs_now account_id now) s.leases) (capacity_of account)

pub record RateLimitRecoveryLease : Type 0 where
  pub request_id : String
  pub account_id : String
  pub selection_key : String

abbrev pub probe_lease : String → String → String → String → ℕ → ℕ → PoolLease
probe_lease request_id account_id pool_id selection_key now expires_at = record {
  request_id = request_id;
  account_id = account_id;
  pool_id = pool_id;
  user_id = none;
  chat_id = none;
  selection_key = selection_key;
  state = LeaseState.active;
  leased_at = now;
  expires_at = expires_at;
  completed_at = none;
  outcome = none;
  error_class = none;
  usage_units = 1;
}

module _ (new_id : ℕ → String) (claim_seconds : ℤ) (now : ℕ) where
  unfoldable pub probe_lane : AccountStore → String → Due → Account → AccountStore
  probe_lane s id ((account_id, selection_key), block) account = record s {
    leases = put s.leases id (
        probe_lease id account_id account.pool_id selection_key now
          (now + at_least 1 claim_seconds));
    lane_blocks =
        put s.lane_blocks (account_id, selection_key)
          (record block { blocked_until = now + at_least 1 claim_seconds });
  }

  abbrev pub claim_of : String → Due → RateLimitRecoveryLease
  claim_of id ((account_id, selection_key), block) = record {
    request_id = id;
    account_id = account_id;
    selection_key = selection_key;
  }

  unfoldable pub claim_with :
      AccountStore
      → List RateLimitRecoveryLease
      → Due
      → Option Account
      → AccountStore × List RateLimitRecoveryLease
  unfolding probe_lane
  claim_with s claimed due none = (s, claimed)
  claim_with s claimed due (some account) =
      if can_probe s now due.0.0 account
      then (
        probe_lane s (new_id (length claimed)) due account,
        claimed ++ claim_of (new_id (length claimed)) due ∷ [],
      )
      else (s, claimed)

  unfoldable pub claim_one :
      AccountStore → List RateLimitRecoveryLease → Due → AccountStore × List RateLimitRecoveryLease
  unfolding claim_with
  claim_one s claimed due = claim_with s claimed due (get s.accounts due.0.0)

  unfoldable pub claim_each :
      ℕ
      → AccountStore × List RateLimitRecoveryLease
      → List Due
      → AccountStore × List RateLimitRecoveryLease
  unfolding claim_one
  claim_each limit (s, claimed) [] = (s, claimed)
  claim_each limit (s, claimed) (due ∷ rest) =
      if leb limit (length claimed)
      then (s, claimed)
      else claim_each limit (claim_one s claimed due) rest

unfoldable pub claim_rate_limit_recoveries :
    (ℕ → String) → AccountStore → ℤ → ℤ → ℕ → AccountStore × List RateLimitRecoveryLease
unfolding claim_each due_blocks
claim_rate_limit_recoveries new_id s limit claim_seconds now =
    let s' = expire s now in
    claim_each new_id claim_seconds now (at_least 1 limit) (s', []) (due_blocks now s'.lane_blocks)
