-- ===== src/AccountPool/Trace/Rooms.antt =====
-- The leases of an account against its capacity, call by call
-- (src/chatgpt_web_gateway/account_pool.py).
use turtle_chat.Prelude.{
  ℕ, ◌≤◌, ◌<◌, ◌≡◌, refl, sym, ap, String, Bool-cases, Option-cases, inl, inr, Option, none, some,
  [], ◌∷◌, arith, string_eq, ◌==◌, ==_eq, if_holds,
}
use mathlib.Core.Path.{subst}
use turtle_chat.Dict.{Dict, get, put, sweep, count}
use turtle_chat.Dict.Laws.{get-put}
use turtle_chat.AccountPool.Types.{Account, PoolLease, AccountStore}
use turtle_chat.AccountPool.Health.{apply_account_result}
use turtle_chat.AccountPool.Select.{capacity_of}
use turtle_chat.AccountPool.Store.{expire_account, expire, active_on, runs_on, AcquireArgs, Outcome}
use turtle_chat.AccountPool.Acquire.{
  commit, new_lease, acquire, renew, renew_lease, renewable, release, release_lease, settle_account,
  Report,
}
use turtle_chat.AccountPool.Acquire.Candidates.{IsKeyed}
use turtle_chat.AccountPool.Acquire.Routes.{
  Fits, Ends, refuses, takes, acquire-Ends, commit-leases, commit-accounts,
}
use turtle_chat.AccountPool.Trace.Leases.{
  IsLeaseTest, expire-count, fresh-count, renew-count, release-count,
}

abbrev pub room_at : Option Account → ℕ
room_at none = 0
room_at (some account) = capacity_of account

abbrev pub HasRooms : AccountStore → Type 0
HasRooms s = (id : String) → active_on id s.leases ≤ room_at (get s.accounts id)

runs_on-IsLeaseTest : (id : String) → IsLeaseTest (runs_on id)
runs_on-IsLeaseTest id = record { active_only = λ x h. ground arith; any_end = λ x t. refl }

sweep-room :
    (now : ℕ) (d : Dict String Account) (id : String)
    → room_at (get (sweep (λ v. some (expire_account now v)) d) id) ≡ room_at (get d id)
unfolding sweep get expire_account
sweep-room now [] id = refl
sweep-room now ((k, v) ∷ d) id = elim (Bool-cases (k == id)) [
  | inl y ↦ rw y (ground arith)
  | inr n ↦ rw n (sweep-room now d id)
]

expire-room :
    (s : AccountStore) (now : ℕ) (id : String)
    → room_at (get (expire s now).accounts id) ≡ room_at (get s.accounts id)
unfolding expire
expire-room s now id = sweep-room now s.accounts id

pub expire-HasRooms : (s : AccountStore) (now : ℕ) → HasRooms s → HasRooms (expire s now)
unfolding active_on
expire-HasRooms s now h id =
    omega (arith, h id, expire-count (runs_on-IsLeaseTest id) s now, expire-room s now id)

put-room :
    (d : Dict String Account) (k : String) (v w : Account) (id : String)
    → get d k ≡ some v
    → w.max_concurrency ≡ v.max_concurrency
    → room_at (get (put d k w) id) ≡ room_at (get d id)
put-room d k v w id h m = rw (get-put d k id w) (elim (Bool-cases (k == id)) [
  | inl y ↦ rw y (rw (sym (==_eq k id y), h) (rw m refl))
  | inr n ↦ rw n refl
])

room_here :
    (s : AccountStore) (a : AcquireArgs) (now : ℕ) (source : Account) (id : String)
    → Fits s a now source
    → source.id ≡ id
    → count (runs_on id) s.leases < room_at (get s.accounts id)
unfolding active_on
room_here s a now source id f e =
    subst (λ i. count (runs_on i) s.leases < room_at (get s.accounts i)) e (rw f.stored f.room)

commit-HasRooms :
    (s : AccountStore) (a : AcquireArgs) (now : ℕ) (source : Account) (reason : Option String)
    → Fits s a now source
    → HasRooms s
    → HasRooms (commit s a now source reason).0
unfolding active_on
commit-HasRooms s a now source reason f h id =
    let leases = ap (count (runs_on id)) (commit-leases s a now source reason) in
    let accounts = ap (λ d. room_at (get d id)) (commit-accounts s a now source reason) in
    let kept =
      put-room s.accounts source.id source (record source { last_used_at = some now }) id f.stored
        refl in
    let more =
      fresh-count (runs_on-IsLeaseTest id) s.leases a.request_id (new_lease a source.id now)
        f.fresh in
    elim (Bool-cases (source.id == id)) [
      | inl y ↦ omega (
        arith,
        leases,
        accounts,
        kept,
        rw y at more,
        room_here s a now source id f (==_eq source.id id y),
      )
      | inr n ↦ omega (arith, leases, accounts, kept, rw n at more, h id)
    ]

Ends-HasRooms :
    (s : AccountStore) (a : AcquireArgs) (now : ℕ) (r : AccountStore × Outcome)
    → HasRooms s
    → Ends s a now r
    → HasRooms r.0
Ends-HasRooms s a now r h (refuses why e) = rw e h
Ends-HasRooms s a now r h (takes source reason f e) =
    rw e (commit-HasRooms s a now source reason f h)

pub renew-accounts :
    (s : AccountStore) (request_id account_id : String) (seconds now : ℕ)
    → (renew s request_id account_id seconds now).0.accounts ≡ (expire s now).accounts
unfolding renew renew_lease
renew-accounts s request_id account_id seconds now =
    elim (Option-cases (get (expire s now).leases request_id)) [
      | inl n ↦ rw (n, renew_lease) refl
      | inr (x, e) ↦ rw (e, renew_lease) (ground arith)
    ]

result-capacity :
    (v : Account) (r : Report) (now : ℕ)
    → (apply_account_result v r.outcome r.status_code r.error_class r.cooldown_seconds
        now).max_concurrency
      ≡ v.max_concurrency
unfolding apply_account_result
result-capacity v r now = ground arith

settle_account-room :
    (s : AccountStore) (account_id : String) (x : PoolLease) (r : Report) (now : ℕ)
    (o : Option Account) (id : String)
    → get s.accounts account_id ≡ o
    → room_at (get (settle_account s account_id x r now o).accounts id)
      ≡ room_at (get s.accounts id)
unfolding settle_account
settle_account-room s account_id x r now none id h = refl
settle_account-room s account_id x r now (some v) id h =
    put-room s.accounts account_id v _ id h (result-capacity v r now)

release-room :
    (s : AccountStore) (request_id account_id : String) (r : Report) (now : ℕ) (id : String)
    → room_at (get (release s request_id account_id r now).accounts id)
      ≡ room_at (get s.accounts id)
unfolding release release_lease
release-room s request_id account_id r now id = elim (Option-cases (get s.leases request_id)) [
  | inl n ↦ rw (n, release_lease) refl
  | inr (x, e) ↦
      rw (e, release_lease)
        (if_holds
          (λ (s' : AccountStore). room_at (get s'.accounts id) ≡ room_at (get s.accounts id))
          (renewable account_id x)
          (λ y. settle_account-room _ account_id x r now (get s.accounts account_id) id refl)
          (λ n. refl))
]

pub acquire-HasRooms :
    (tiebreak : String → Option String → String → ℕ) (s : AccountStore) (a : AcquireArgs) (now : ℕ)
    → IsKeyed s.accounts
    → HasRooms s
    → HasRooms (acquire tiebreak s a now).0
acquire-HasRooms tiebreak s a now k h =
    Ends-HasRooms (expire s now) a now _ (expire-HasRooms s now h) (acquire-Ends tiebreak s a now k)

pub renew-HasRooms :
    (s : AccountStore) (request_id account_id : String) (seconds now : ℕ)
    → HasRooms s
    → HasRooms (renew s request_id account_id seconds now).0
unfolding active_on
renew-HasRooms s request_id account_id seconds now h id = omega (
  arith,
  h id,
  renew-count (runs_on-IsLeaseTest id) s request_id account_id seconds now,
  ap (λ d. room_at (get d id)) (renew-accounts s request_id account_id seconds now),
  expire-room s now id,
)

pub release-HasRooms :
    (s : AccountStore) (request_id account_id : String) (r : Report) (now : ℕ)
    → HasRooms s
    → HasRooms (release s request_id account_id r now)
unfolding active_on
release-HasRooms s request_id account_id r now h id = omega (
  arith,
  h id,
  release-count (runs_on-IsLeaseTest id) s request_id account_id r now,
  release-room s request_id account_id r now id,
)
