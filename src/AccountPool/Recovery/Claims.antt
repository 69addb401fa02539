-- ===== src/AccountPool/Recovery/Claims.antt =====
-- Recovery leases against the capacity of the accounts and the limit of the call
-- (src/chatgpt_web_gateway/account_pool.py).
use turtle_chat.Prelude.{
  false, ◌++◌, ℕ, ◌+◌, ◌≤◌, ◌<◌, ◌≡◌, refl, ap, ◌∙◌, String, Bool-cases, inl, inr, true, Option,
  none, some, List, [], ◌∷◌, arith, leb, string_eq, ◌==◌, ==_eq, if_holds, length, ℤ, at_least,
  &&-true,
}
use mathlib.Core.Path.{subst}
use turtle_chat.Dict.{Dict, get, count}
use turtle_chat.Dict.Items.{AllItems-put}
use turtle_chat.Dict.Counts.{count-put}
use turtle_chat.Prelude.{ltb→lt, at_least-positive}
use turtle_chat.AccountPool.Types.{Account, PoolLease, AccountStore}
use turtle_chat.AccountPool.Select.{capacity_of}
use turtle_chat.AccountPool.Store.{active_on, runs_on, expire}
use turtle_chat.AccountPool.Recovery.{
  claim_of, Due, claim_with, claim_one, claim_each, claim_rate_limit_recoveries, probe_lane,
  probe_lease, can_probe, may_probe, runs_now, RateLimitRecoveryLease, due_blocks,
}
use turtle_chat.AccountPool.Trace.Rooms.{HasRooms, room_at, expire-HasRooms}
use turtle_chat.AccountPool.Trace.Chats.{
  HasOneEach, holds_chat, IsLive, expire-IsLive, expire-HasOneEach,
}

-- What one claim keeps: the leases within the rooms, those that end later than now, and, where
-- the claims start so, one active lease for each chat.
pub record IsTidy (start : AccountStore) (now : ℕ) (s : AccountStore) : Type 0 where
  pub rooms : HasRooms s
  pub chats : HasOneEach start → HasOneEach s
  pub live : IsLive now s.leases

live-count :
    (now : ℕ) (id : String) (d : Dict String PoolLease)
    → IsLive now d
    → count (runs_on id) d ≤ count (runs_now id now) d
unfolding count
live-count now id [] a = omega arith
live-count now id ((k, x) ∷ d) a = ground (arith, a.0, live-count now id d a.1)

module _ (start : AccountStore) (new_id : ℕ → String) (claim_seconds : ℤ) (now : ℕ) where
  module _ (s : AccountStore) (id : String) (due : Due) (account : Account)
      (w : IsTidy start now s) where
    abbrev after : AccountStore
    after = probe_lane new_id claim_seconds now s id due account

    probe_lane-rooms :
        get s.accounts due.0.0 ≡ some account
        → can_probe s now due.0.0 account ≡ true
        → HasRooms after
    unfolding probe_lane active_on
    probe_lane-rooms g y j =
        let more =
          count-put (runs_on j) s.leases id
            (probe_lease id due.0.0 account.pool_id due.0.1 now (now + at_least 1 claim_seconds)) in
        elim (Bool-cases (due.0.0 == j)) [
          | inl e ↦
              let here =
                subst (λ i. room_at (get s.accounts i) ≡ capacity_of account) (==_eq due.0.0 j e)
                  (ap room_at g) in
              let free =
                subst (λ i. count (runs_now i now) s.leases < capacity_of account)
                  (==_eq due.0.0 j e)
                  (ltb→lt (count (runs_now due.0.0 now) s.leases) (capacity_of account)
                    (&&-true (may_probe account) _ y).1) in
              omega (arith, rw e at more, here, free, live-count now j s.leases w.live)
          | inr n ↦ omega (arith, rw n at more, w.rooms j)
        ]

    probe_lane-chats : HasOneEach start → HasOneEach after
    unfolding probe_lane
    probe_lane-chats h p c n =
        let more =
          count-put (holds_chat p c) s.leases id
            (probe_lease id due.0.0 account.pool_id due.0.1 now (now + at_least 1 claim_seconds)) in
        ground (arith, more, w.chats h p c n)

    probe_lane-IsLive : IsLive now after.leases
    unfolding probe_lane
    probe_lane-IsLive =
        AllItems-put _ s.leases id _ w.live (λ h. omega (arith, at_least-positive claim_seconds))

    probe_lane-IsTidy :
        get s.accounts due.0.0 ≡ some account
        → can_probe s now due.0.0 account ≡ true
        → IsTidy start now after
    probe_lane-IsTidy g y = record {
      rooms = probe_lane-rooms g y;
      chats = probe_lane-chats;
      live = probe_lane-IsLive;
    }

  claim_with-IsTidy :
      (s : AccountStore) (claimed : List RateLimitRecoveryLease) (due : Due) (o : Option Account)
      → IsTidy start now s
      → get s.accounts due.0.0 ≡ o
      → IsTidy start now (claim_with new_id claim_seconds now s claimed due o).0
  unfolding claim_with
  claim_with-IsTidy s claimed due none w g = w
  claim_with-IsTidy s claimed due (some account) w g =
      if_holds (λ (r : AccountStore × List RateLimitRecoveryLease). IsTidy start now r.0)
        (can_probe s now due.0.0 account)
        (λ y. probe_lane-IsTidy s (new_id (length claimed)) due account w g y) (λ n. w)

  claim_each-IsTidy :
      (limit : ℕ) (s : AccountStore) (claimed : List RateLimitRecoveryLease) (dues : List Due)
      → IsTidy start now s
      → IsTidy start now (claim_each new_id claim_seconds now limit (s, claimed) dues).0
  unfolding claim_each claim_one
  claim_each-IsTidy limit s claimed [] w = w
  claim_each-IsTidy limit s claimed (due ∷ rest) w =
      if_holds (λ (r : AccountStore × List RateLimitRecoveryLease). IsTidy start now r.0)
        (leb limit (length claimed)) (λ y. w)
        (λ n.
          claim_each-IsTidy limit (claim_one new_id claim_seconds now s claimed due).0
            (claim_one new_id claim_seconds now s claimed due).1 rest
            (claim_with-IsTidy s claimed due (get s.accounts due.0.0) w refl))

pub claims-IsTidy :
    (new_id : ℕ → String) (s : AccountStore) (limit claim_seconds : ℤ) (now : ℕ)
    → HasRooms s
    → IsTidy s now (claim_rate_limit_recoveries new_id s limit claim_seconds now).0
unfolding claim_rate_limit_recoveries
claims-IsTidy new_id s limit claim_seconds now r =
    claim_each-IsTidy s new_id claim_seconds now (at_least 1 limit) (expire s now) []
      (due_blocks now (expire s now).lane_blocks)
      (record {
        rooms = expire-HasRooms s now r;
        chats = expire-HasOneEach s now;
        live = expire-IsLive s now;
      })

claim_with-accounts :
    (new_id : ℕ → String) (claim_seconds : ℤ) (now : ℕ) (s : AccountStore)
    (claimed : List RateLimitRecoveryLease) (due : Due) (o : Option Account)
    → (claim_with new_id claim_seconds now s claimed due o).0.accounts ≡ s.accounts
unfolding claim_with probe_lane
claim_with-accounts new_id claim_seconds now s claimed due none = refl
claim_with-accounts new_id claim_seconds now s claimed due (some account) = ground arith

claim_each-accounts :
    (new_id : ℕ → String) (claim_seconds : ℤ) (now limit : ℕ) (s : AccountStore)
    (claimed : List RateLimitRecoveryLease) (dues : List Due)
    → (claim_each new_id claim_seconds now limit (s, claimed) dues).0.accounts ≡ s.accounts
unfolding claim_each claim_one
claim_each-accounts new_id claim_seconds now limit s claimed [] = refl
claim_each-accounts new_id claim_seconds now limit s claimed (due ∷ rest) =
    if_holds (λ (r : AccountStore × List RateLimitRecoveryLease). r.0.accounts ≡ s.accounts)
      (leb limit (length claimed)) (λ y. refl)
      (λ n.
        claim_each-accounts new_id claim_seconds now limit
          (claim_one new_id claim_seconds now s claimed due).0
          (claim_one new_id claim_seconds now s claimed due).1 rest
        ∙ claim_with-accounts new_id claim_seconds now s claimed due (get s.accounts due.0.0))

pub claims-accounts :
    (new_id : ℕ → String) (s : AccountStore) (limit claim_seconds : ℤ) (now : ℕ)
    → (claim_rate_limit_recoveries new_id s limit claim_seconds now).0.accounts
      ≡ (expire s now).accounts
unfolding claim_rate_limit_recoveries
claims-accounts new_id s limit claim_seconds now =
    claim_each-accounts new_id claim_seconds now (at_least 1 limit) (expire s now) []
      (due_blocks now (expire s now).lane_blocks)

leb-false : (a b : ℕ) → leb a b ≡ false → b < a
leb-false a b h = ground arith

length-snoc : {A : Type 0} (xs : List A) (x : A) → length (xs ++ x ∷ []) ≡ length xs + 1
length-snoc [] x = refl
length-snoc (y ∷ ys) x = omega (arith, length-snoc ys x)

module _ (new_id : ℕ → String) (claim_seconds : ℤ) (now limit : ℕ) where
  claim_with-length :
      (s : AccountStore) (claimed : List RateLimitRecoveryLease) (due : Due) (o : Option Account)
      → length (claim_with new_id claim_seconds now s claimed due o).1 ≤ length claimed + 1
  unfolding claim_with
  claim_with-length s claimed due none = omega arith
  claim_with-length s claimed due (some account) =
      if_holds (λ (r : AccountStore × List RateLimitRecoveryLease). length r.1 ≤ length claimed + 1)
        (can_probe s now due.0.0 account)
        (λ y. omega (
          arith,
          length-snoc claimed (claim_of new_id claim_seconds now (new_id (length claimed)) due),
        ))
        (λ n. omega arith)

  claim_each-length :
      (s : AccountStore) (claimed : List RateLimitRecoveryLease) (dues : List Due)
      → length claimed ≤ limit
      → length (claim_each new_id claim_seconds now limit (s, claimed) dues).1 ≤ limit
  unfolding claim_each claim_one
  claim_each-length s claimed [] h = h
  claim_each-length s claimed (due ∷ rest) h =
      if_holds (λ (r : AccountStore × List RateLimitRecoveryLease). length r.1 ≤ limit)
        (leb limit (length claimed)) (λ y. h)
        (λ n.
          claim_each-length (claim_one new_id claim_seconds now s claimed due).0
            (claim_one new_id claim_seconds now s claimed due).1 rest
            (omega (
              arith,
              claim_with-length s claimed due (get s.accounts due.0.0),
              leb-false limit (length claimed) n,
            )))

-- In a store in which no account runs more leases than its capacity: one call claims at most `limit`
-- lanes, where a limit below one counts as one, and after it still no account runs more leases than
-- its capacity, recovery leases included.
pub claims_bounds :
    (new_id : ℕ → String) (s : AccountStore) (limit claim_seconds : ℤ) (now : ℕ)
    → HasRooms s
    → (length (claim_rate_limit_recoveries new_id s limit claim_seconds now).1 ≤ at_least 1 limit)
      × HasRooms (claim_rate_limit_recoveries new_id s limit claim_seconds now).0
unfolding claim_rate_limit_recoveries
claims_bounds new_id s limit claim_seconds now r = (
  claim_each-length new_id claim_seconds now (at_least 1 limit) (expire s now) []
      (due_blocks now (expire s now).lane_blocks) (omega arith),
  (claims-IsTidy new_id s limit claim_seconds now r).rooms,
)
