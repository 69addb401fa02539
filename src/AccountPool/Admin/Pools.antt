-- ===== src/AccountPool/Admin/Pools.antt =====
-- `create_pool`, `update_pool` and `delete_pool` of `MemoryAccountStore`
-- (src/chatgpt_web_gateway/account_pool.py).
use turtle_chat.Prelude.{
  ℕ, String, Bool, true, not, ◌&&◌, Option, none, some, ◌==◌, string_eq, if◌then◌else◌, any_of,
}
use turtle_chat.Dict.{get, put, pop, values}
use turtle_chat.Quota.Lookup.{Provider}
use turtle_chat.AccountPool.Types.{Account, AccountGroup, AccountStore}
use turtle_chat.AccountPool.Store.{no_key}

unfoldable pub create_pool :
    AccountStore → String → Provider → String → String → ℕ → Option AccountStore
create_pool s pool_id provider name description now =
    if any_of (λ item. item.name == name) (values s.pools)
    then none
    else some (record s {
      pools = put s.pools pool_id (record {
        id = pool_id;
        name = name;
        description = description;
        provider = provider;
        enabled = true;
        created_at = now;
        updated_at = now;
      });
    })

abbrev pub named_elsewhere : String → String → AccountGroup → Bool
named_elsewhere pool_id name item = not (item.id == pool_id) && item.name == name

abbrev pub update_group :
    AccountStore → String → String → String → Bool → ℕ → Option AccountGroup → Option AccountStore
update_group s pool_id name description enabled now none = none
update_group s pool_id name description enabled now (some value) =
    if any_of (named_elsewhere pool_id name) (values s.pools)
    then none
    else some (record s {
      pools = put s.pools pool_id (record value {
        name = name;
        description = description;
        enabled = enabled;
        updated_at = now;
      });
    })

unfoldable pub update_pool :
    AccountStore → String → String → String → Bool → ℕ → Option AccountStore
update_pool s pool_id name description enabled now =
    update_group s pool_id name description enabled now (get s.pools pool_id)

abbrev pub belongs_to : String → Account → Bool
belongs_to pool_id item = item.pool_id == pool_id

unfoldable pub delete_pool : AccountStore → String → Option AccountStore
delete_pool s pool_id =
    if no_key (get s.pools pool_id)
    then none
    else if any_of (belongs_to pool_id) (values s.accounts)
    then none
    else some (record s { pools = pop s.pools pool_id })
