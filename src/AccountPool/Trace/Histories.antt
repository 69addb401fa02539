-- ===== src/AccountPool/Trace/Histories.antt =====
-- What holds after every sequence of lease calls of `MemoryAccountStore`
-- (src/chatgpt_web_gateway/account_pool.py).
use turtle_chat.Prelude.{
  ℕ, ◌≤◌, ◌≡◌, refl, ap, ◌∙◌, String, false, Option, none, some, List, [], ◌∷◌, arith, string_eq,
  ◌==◌, if_holds,
}
use turtle_chat.Dict.{get, count}
use turtle_chat.Dict.Items.{AllItems-get}
use turtle_chat.AccountPool.Types.{Account, AccountStore, PoolLease}
use turtle_chat.AccountPool.Health.{apply_account_result}
use turtle_chat.AccountPool.Select.{capacity_of}
use turtle_chat.AccountPool.Store.{expire, AcquireArgs, Outcome, active_on}
use turtle_chat.AccountPool.Acquire.{release, release_lease, settle_account, Report, renewable}
use turtle_chat.AccountPool.Acquire.Candidates.{IsKeyed, expire-IsKeyed, put-IsKeyed}
use turtle_chat.AccountPool.Acquire.Routes.{Ends, refuses, takes, acquire-Ends, commit-accounts}
use turtle_chat.AccountPool.Trace.{Call, acquires, renews, releases, claims, step, run}
use turtle_chat.AccountPool.Recovery.Claims.{claims-IsTidy, claims-accounts}
use turtle_chat.AccountPool.Trace.Rooms.{
  HasRooms, room_at, acquire-HasRooms, renew-HasRooms, release-HasRooms, renew-accounts,
}
use turtle_chat.AccountPool.Trace.Chats.{
  HasOneEach, holds_chat, acquire-HasOneEach, renew-HasOneEach, release-HasOneEach,
}

pub record IsSafe (s : AccountStore) : Type 0 where
  pub keyed : IsKeyed s.accounts
  pub rooms : HasRooms s
  pub chats : HasOneEach s

Ends-IsKeyed :
    (s : AccountStore) (a : AcquireArgs) (now : ℕ) (r : AccountStore × Outcome)
    → IsKeyed s.accounts
    → Ends s a now r
    → IsKeyed r.0.accounts
Ends-IsKeyed s a now r k (refuses why e) = rw e k
Ends-IsKeyed s a now r k (takes source reason f e) =
    rw e (rw (commit-accounts s a now source reason) (put-IsKeyed s.accounts source.id _ refl k))

result-id :
    (v : Account) (r : Report) (now : ℕ)
    → (apply_account_result v r.outcome r.status_code r.error_class r.cooldown_seconds now).id
      ≡ v.id
unfolding apply_account_result
result-id v r now = ground arith

settle_account-IsKeyed :
    (s : AccountStore) (account_id : String) (x : PoolLease) (r : Report) (now : ℕ)
    (o : Option Account)
    → get s.accounts account_id ≡ o
    → IsKeyed s.accounts
    → IsKeyed (settle_account s account_id x r now o).accounts
unfolding settle_account
settle_account-IsKeyed s account_id x r now none h k = k
settle_account-IsKeyed s account_id x r now (some v) h k =
    put-IsKeyed s.accounts account_id _
      (result-id v r now ∙ AllItems-get _ s.accounts account_id v k.1 h) k

release_lease-IsKeyed :
    (s : AccountStore) (request_id account_id : String) (r : Report) (now : ℕ)
    (o : Option PoolLease)
    → IsKeyed s.accounts
    → IsKeyed (release_lease s request_id account_id r now o).accounts
unfolding release_lease
release_lease-IsKeyed s request_id account_id r now none k = k
release_lease-IsKeyed s request_id account_id r now (some x) k =
    if_holds (λ (s' : AccountStore). IsKeyed s'.accounts) (renewable account_id x)
      (λ y. settle_account-IsKeyed _ account_id x r now (get s.accounts account_id) refl k) (λ n. k)

module _ (tiebreak : String → Option String → String → ℕ) where
  step-IsSafe : (s : AccountStore) (call : Call) → IsSafe s → IsSafe (step tiebreak s call)
  unfolding step release
  step-IsSafe s (acquires a now) w = record {
    keyed =
        Ends-IsKeyed (expire s now) a now _ (expire-IsKeyed s now w.keyed)
          (acquire-Ends tiebreak s a now w.keyed);
    rooms = acquire-HasRooms tiebreak s a now w.keyed w.rooms;
    chats = acquire-HasOneEach tiebreak s a now w.keyed w.chats;
  }
  step-IsSafe s (renews request_id account_id seconds now) w = record {
    keyed = rw (renew-accounts s request_id account_id seconds now) (expire-IsKeyed s now w.keyed);
    rooms = renew-HasRooms s request_id account_id seconds now w.rooms;
    chats = renew-HasOneEach s request_id account_id seconds now w.chats;
  }
  step-IsSafe s (releases request_id account_id r now) w = record {
    keyed = release_lease-IsKeyed s request_id account_id r now (get s.leases request_id) w.keyed;
    rooms = release-HasRooms s request_id account_id r now w.rooms;
    chats = release-HasOneEach s request_id account_id r now w.chats;
  }
  step-IsSafe s (claims new_id limit claim_seconds now) w =
      let tidy = claims-IsTidy new_id s limit claim_seconds now w.rooms in
      record {
        keyed =
            rw (claims-accounts new_id s limit claim_seconds now) (expire-IsKeyed s now w.keyed);
        rooms = tidy.rooms;
        chats = tidy.chats w.chats;
      }

  run-IsSafe : (s : AccountStore) (calls : List Call) → IsSafe s → IsSafe (run tiebreak s calls)
  unfolding run
  run-IsSafe s [] w = w
  run-IsSafe s (call ∷ calls) w = run-IsSafe (step tiebreak s call) calls (step-IsSafe s call w)

-- A store with accounts under their own identifiers and no leases.
unleased-IsSafe : (s : AccountStore) → IsKeyed s.accounts → s.leases ≡ [] → IsSafe s
unfolding active_on count
unleased-IsSafe s k e = record {
  keyed = k;
  rooms = λ id. rw e (omega arith);
  chats = λ p c n. rw e (omega arith);
}

-- Take a store without leases whose accounts stand under their own identifiers, each once. After
-- any sequence of calls of `acquire`, `renew`, `release` and `claim_rate_limit_recoveries`, with
-- any arguments and at any times, a stored account runs at
-- most as many active leases as its capacity, and a text that is not empty is the chat of at most
-- one active lease in each pool.
pub active_on-le-capacity_of :
    (tiebreak : String → Option String → String → ℕ) (s : AccountStore) (calls : List Call)
    → IsKeyed s.accounts
    → s.leases ≡ []
    → ((id : String) (account : Account)
        → get (run tiebreak s calls).accounts id ≡ some account
        → active_on id (run tiebreak s calls).leases ≤ capacity_of account)
      × ((pool_id chat_id : String)
          → (chat_id == "") ≡ false
          → count (holds_chat pool_id chat_id) (run tiebreak s calls).leases ≤ 1)
active_on-le-capacity_of tiebreak s calls k e =
    let w = run-IsSafe tiebreak s calls (unleased-IsSafe s k e) in
    (λ id account h. omega (arith, w.rooms id, ap room_at h), w.chats)
