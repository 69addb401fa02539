-- ===== src/AccountPool/Admin/Defaults.antt =====
-- `MemoryAccountStore.__init__` and `initialize` (src/chatgpt_web_gateway/account_pool.py).
use turtle_chat.Prelude.{
  ℕ, ◌≡◌, refl, String, true, false, Bool-cases, inl, inr, List, [], ◌∷◌, string_eq, ==_refl,
  if◌then◌else◌, if_holds,
}
use turtle_chat.Dict.{Dict, get, put}
use turtle_chat.Dict.Laws.{get-put}
use turtle_chat.Quota.Lookup.{Provider, gpt, claude}
use turtle_chat.AccountPool.Types.{Account, AccountGroup, AccountStore}
use turtle_chat.AccountPool.Store.{no_key}
use turtle_chat.AccountPool.Acquire.Candidates.{IsKeyed, put-IsKeyed}
use turtle_chat.AccountPool.Admin.References.{HasPools, put_pool-HasPools, put_account-HasPools}

abbrev pub empty_store : AccountStore
empty_store = record { pools = []; accounts = []; affinity = []; leases = []; lane_blocks = [] }

-- d.setdefault(k, v)
module _ {V : Type 0} where
  unfoldable pub set_default : Dict String V → String → V → Dict String V
  set_default d k v = if no_key (get d k) then put d k v else d

abbrev default_name : Provider → String
default_name gpt = "ChatGPT 默认账号池"
default_name claude = "Claude 默认账号池"

abbrev pub default_pool : Account → ℕ → AccountGroup
default_pool account now = record {
  id = account.pool_id;
  name = default_name account.provider;
  description = "部署兼容账号池";
  provider = account.provider;
  enabled = true;
  created_at = now;
  updated_at = now;
}

unfoldable pub add_default : AccountStore → Account → ℕ → AccountStore
unfolding set_default
add_default s account now = record s {
  pools = set_default s.pools account.pool_id (default_pool account now);
  accounts = set_default s.accounts account.id account;
}

unfoldable pub initialize : AccountStore → List Account → ℕ → AccountStore
unfolding add_default
initialize s [] now = s
initialize s (account ∷ rest) now = initialize (add_default s account now) rest now

pub record IsStart (s : AccountStore) : Type 0 where
  pub keyed : IsKeyed s.accounts
  pub pooled : HasPools s
  pub unleased : s.leases ≡ []

set_default-found :
    {V : Type 0} (d : Dict String V) (k : String) (v : V)
    → no_key (get (set_default d k v) k) ≡ false
unfolding set_default
set_default-found d k v = elim (Bool-cases (no_key (get d k))) [
  | inl y ↦ rw y (rw (get-put d k k v) (rw (==_refl k) refl))
  | inr n ↦ rw n n
]

module _ (account : Account) (now : ℕ) where
  add_pool-HasPools :
      (s : AccountStore)
      → HasPools s
      → HasPools
          (record s { pools = set_default s.pools account.pool_id (default_pool account now) })
  unfolding set_default
  add_pool-HasPools s h =
      if_holds (λ p. HasPools (record s { pools = p })) (no_key (get s.pools account.pool_id))
        (λ _. put_pool-HasPools s account.pool_id (default_pool account now) h) (λ _. h)

  add_account-HasPools :
      (s : AccountStore)
      → no_key (get s.pools account.pool_id) ≡ false
      → HasPools s
      → HasPools (record s { accounts = set_default s.accounts account.id account })
  unfolding set_default
  add_account-HasPools s p h =
      if_holds (λ a. HasPools (record s { accounts = a })) (no_key (get s.accounts account.id))
        (λ _. put_account-HasPools s account.id account p h) (λ _. h)

  add_default-IsStart : (s : AccountStore) → IsStart s → IsStart (add_default s account now)
  unfolding add_default
  add_default-IsStart s w = record {
    keyed =
        unfold set_default in
        if_holds IsKeyed (no_key (get s.accounts account.id))
          (λ _. put-IsKeyed s.accounts account.id account refl w.keyed) (λ _. w.keyed);
    pooled =
        add_account-HasPools
          (record s { pools = set_default s.pools account.pool_id (default_pool account now) })
          (set_default-found s.pools account.pool_id (default_pool account now))
          (add_pool-HasPools s w.pooled);
    unleased = w.unleased;
  }

initialize_from :
    (s : AccountStore) (accounts : List Account) (now : ℕ)
    → IsStart s
    → IsStart (initialize s accounts now)
unfolding initialize
initialize_from s [] now w = w
initialize_from s (account ∷ rest) now w =
    initialize_from (add_default s account now) rest now (add_default-IsStart account now s w)

-- Whatever default accounts a new store is initialized with, also if their identifiers repeat:
-- every account stands under its own identifier, once, in a pool that exists, and nothing is
-- leased.
pub initialize-IsStart :
    (accounts : List Account) (now : ℕ) → IsStart (initialize empty_store accounts now)
initialize-IsStart accounts now =
    initialize_from empty_store accounts now
      (record { keyed = (tt, tt); pooled = tt; unleased = refl })
