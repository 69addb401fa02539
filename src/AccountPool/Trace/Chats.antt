-- ===== src/AccountPool/Trace/Chats.antt =====
-- The active leases of a chat, call by call (src/chatgpt_web_gateway/account_pool.py).
use turtle_chat.Prelude.{
  ℕ, ◌≤◌, ◌<◌, ◌≡◌, refl, ap, String, Bool, Bool-cases, inl, inr, true, false, ◌&&◌, Option, none,
  some, [], ◌∷◌, arith, string_eq, ◌==◌, ==_eq, &&-true, any_of,
}
use turtle_chat.Dict.{Dict, sweep, count, values}
use turtle_chat.Dict.Items.{AllItems}
use turtle_chat.AccountPool.Types.{Account, PoolLease, AccountStore, is_active}
use turtle_chat.AccountPool.Store.{
  expire_lease, expire, AcquireArgs, Outcome, chat_is_busy, serves_chat, same_text, truthy,
}
use turtle_chat.AccountPool.Acquire.{commit, new_lease, acquire, renew, release, Report}
use turtle_chat.AccountPool.Acquire.Candidates.{IsKeyed}
use turtle_chat.AccountPool.Acquire.Routes.{Fits, Ends, refuses, takes, acquire-Ends, commit-leases}
use turtle_chat.AccountPool.Trace.Leases.{
  IsLeaseTest, expire-count, fresh-count, renew-count, release-count,
}

-- An active lease of the chat.
abbrev pub holds_chat : String → String → PoolLease → Bool
holds_chat pool_id chat_id lease =
    lease.pool_id == pool_id && same_text lease.chat_id chat_id && is_active lease.state

abbrev pub HasOneEach : AccountStore → Type 0
HasOneEach s =
    (pool_id chat_id : String)
    → (chat_id == "") ≡ false
    → count (holds_chat pool_id chat_id) s.leases ≤ 1

holds_chat-IsLeaseTest : (pool_id chat_id : String) → IsLeaseTest (holds_chat pool_id chat_id)
holds_chat-IsLeaseTest pool_id chat_id = record {
  active_only = λ x h. ground arith;
  any_end = λ x t. refl;
}

-- The active leases end later than now.
abbrev pub IsLive : ℕ → Dict String PoolLease → Type 0
IsLive now d = AllItems (λ k x. is_active x.state ≡ true → now < x.expires_at) d

sweep-IsLive :
    (now : ℕ) (d : Dict String PoolLease) → IsLive now (sweep (λ x. some (expire_lease now x)) d)
unfolding sweep expire_lease
sweep-IsLive now [] = tt
sweep-IsLive now ((k, x) ∷ d) = (λ h. ground arith, sweep-IsLive now d)

pub expire-IsLive : (s : AccountStore) (now : ℕ) → IsLive now (expire s now).leases
unfolding expire
expire-IsLive s now = sweep-IsLive now s.leases

pub expire-HasOneEach : (s : AccountStore) (now : ℕ) → HasOneEach s → HasOneEach (expire s now)
expire-HasOneEach s now h p c n =
    omega (arith, h p c n, expire-count (holds_chat-IsLeaseTest p c) s now)

quiet-count :
    (pool_id chat_id : String) (now : ℕ) (d : Dict String PoolLease)
    → IsLive now d
    → any_of (serves_chat pool_id chat_id now) (values d) ≡ false
    → count (holds_chat pool_id chat_id) d ≡ 0
unfolding any_of values count
quiet-count pool_id chat_id now [] a h = refl
quiet-count pool_id chat_id now ((k, x) ∷ d) a h =
    ground (arith, a.0, quiet-count pool_id chat_id now d a.1)

same_text-eq : (o : Option String) (text : String) → same_text o text ≡ true → o ≡ some text
same_text-eq none text h = cc
same_text-eq (some other) text h = ap some (==_eq other text h)

chat_is_busy-false :
    (a : AcquireArgs) (now : ℕ) (d : Dict String PoolLease) (pool_id chat_id : String)
    → a.pool_id ≡ pool_id
    → a.chat_id ≡ some chat_id
    → (chat_id == "") ≡ false
    → chat_is_busy a.pool_id (truthy a.chat_id) now d ≡ false
    → any_of (serves_chat pool_id chat_id now) (values d) ≡ false
chat_is_busy-false a now d pool_id chat_id p c n h = let h' = rw (p, c) at h in rw n at h'

commit-HasOneEach :
    (s : AccountStore) (a : AcquireArgs) (now : ℕ) (source : Account) (reason : Option String)
    → Fits s a now source
    → IsLive now s.leases
    → HasOneEach s
    → HasOneEach (commit s a now source reason).0
commit-HasOneEach s a now source reason f l h pool_id chat_id n =
    let leases = ap (count (holds_chat pool_id chat_id)) (commit-leases s a now source reason) in
    let more =
      fresh-count (holds_chat-IsLeaseTest pool_id chat_id) s.leases a.request_id
        (new_lease a source.id now) f.fresh in
    elim (Bool-cases (holds_chat pool_id chat_id (new_lease a source.id now))) [
      | inl y ↦
          let both =
            &&-true (a.pool_id == pool_id) (same_text a.chat_id chat_id) (&&-true _ true y).0 in
          let none_yet = quiet-count pool_id chat_id now s.leases l (
            chat_is_busy-false a now s.leases pool_id chat_id (==_eq a.pool_id pool_id both.0)
              (same_text-eq a.chat_id chat_id both.1) n f.quiet) in
          omega (arith, leases, rw y at more, none_yet)
      | inr m ↦ omega (arith, leases, rw m at more, h pool_id chat_id n)
    ]

Ends-HasOneEach :
    (s : AccountStore) (a : AcquireArgs) (now : ℕ) (r : AccountStore × Outcome)
    → IsLive now s.leases
    → HasOneEach s
    → Ends s a now r
    → HasOneEach r.0
Ends-HasOneEach s a now r l h (refuses why e) = rw e h
Ends-HasOneEach s a now r l h (takes source reason f e) =
    rw e (commit-HasOneEach s a now source reason f l h)

pub acquire-HasOneEach :
    (tiebreak : String → Option String → String → ℕ) (s : AccountStore) (a : AcquireArgs) (now : ℕ)
    → IsKeyed s.accounts
    → HasOneEach s
    → HasOneEach (acquire tiebreak s a now).0
acquire-HasOneEach tiebreak s a now k h =
    Ends-HasOneEach (expire s now) a now _ (expire-IsLive s now) (expire-HasOneEach s now h)
      (acquire-Ends tiebreak s a now k)

pub renew-HasOneEach :
    (s : AccountStore) (request_id account_id : String) (seconds now : ℕ)
    → HasOneEach s
    → HasOneEach (renew s request_id account_id seconds now).0
renew-HasOneEach s request_id account_id seconds now h p c n =
    omega
      (arith, h p c n, renew-count (holds_chat-IsLeaseTest p c) s request_id account_id seconds now)

pub release-HasOneEach :
    (s : AccountStore) (request_id account_id : String) (r : Report) (now : ℕ)
    → HasOneEach s
    → HasOneEach (release s request_id account_id r now)
release-HasOneEach s request_id account_id r now h p c n =
    omega (arith, h p c n, release-count (holds_chat-IsLeaseTest p c) s request_id account_id r now)
