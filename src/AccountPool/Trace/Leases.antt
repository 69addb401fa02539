-- ===== src/AccountPool/Trace/Leases.antt =====
-- How the stretches of code change the number of active leases of some kind.
use turtle_chat.Prelude.{
  ℕ, ◌+◌, ◌≤◌, ◌≡◌, refl, String, Bool, Bool-cases, Option-cases, inl, inr, false, Option, none,
  some, arith, to_nat, string_eq,
}
use turtle_chat.Dict.{Dict, get, put, count}
use turtle_chat.Dict.Counts.{count-put, count-sweep}
use turtle_chat.AccountPool.Types.{Account, PoolLease, LeaseState, AccountStore, is_active}
use turtle_chat.AccountPool.Store.{expire_lease, expire}
use turtle_chat.AccountPool.Acquire.{
  close_lease, Report, renew, renew_lease, renewable, release, release_lease, settle_account,
}

-- A kind of active leases that does not depend on when they end.
pub record IsLeaseTest (p : PoolLease → Bool) : Type 0 where
  pub active_only : (x : PoolLease) → is_active x.state ≡ false → p x ≡ false
  pub any_end : (x : PoolLease) (t : ℕ) → p (record x { expires_at = t }) ≡ p x

module _ {p : PoolLease → Bool} (i : IsLeaseTest p) where
  expire_lease-weight : (now : ℕ) (x : PoolLease) → to_nat (p (expire_lease now x)) ≤ to_nat (p x)
  unfolding expire_lease
  expire_lease-weight now x = ground (
    arith,
    i.active_only
        (record x {
          state = LeaseState.expired;
          completed_at = some now;
          outcome = some "lease_expired";
        })
        refl,
  )

  pub expire-count : (s : AccountStore) (now : ℕ) → count p (expire s now).leases ≤ count p s.leases
  unfolding expire
  expire-count s now = count-sweep p _ s.leases (expire_lease-weight now)

  pub renewed-count :
      (d : Dict String PoolLease) (id : String) (x : PoolLease) (t : ℕ)
      → get d id ≡ some x
      → count p (put d id (record x { expires_at = t })) ≤ count p d
  renewed-count d id x t h =
      ground (arith, count-put p d id (record x { expires_at = t }), i.any_end x t)

  pub inactive-count :
      (d : Dict String PoolLease) (id : String) (x : PoolLease)
      → is_active x.state ≡ false
      → count p (put d id x) ≤ count p d
  inactive-count d id x h = ground (arith, count-put p d id x, i.active_only x h)

  pub fresh-count :
      (d : Dict String PoolLease) (id : String) (x : PoolLease)
      → get d id ≡ none
      → count p (put d id x) ≡ count p d + to_nat (p x)
  fresh-count d id x h = ground (arith, count-put p d id x)

pub close_lease-inactive :
    (x : PoolLease) (r : Report) (now : ℕ) → is_active (close_lease x r now).state ≡ false
unfolding close_lease
close_lease-inactive x r now = ground arith

settle_account-leases :
    (s : AccountStore) (id : String) (x : PoolLease) (r : Report) (now : ℕ) (o : Option Account)
    → (settle_account s id x r now o).leases ≡ s.leases
unfolding settle_account
settle_account-leases s id x r now none = refl
settle_account-leases s id x r now (some account) = refl

module _ {p : PoolLease → Bool} (i : IsLeaseTest p) where
  pub renew-count :
      (s : AccountStore) (request_id account_id : String) (seconds now : ℕ)
      → count p (renew s request_id account_id seconds now).0.leases ≤ count p s.leases
  unfolding renew renew_lease
  renew-count s request_id account_id seconds now =
      elim (Option-cases (get (expire s now).leases request_id)) [
        | inl n ↦ rw (n, renew_lease) (expire-count i s now)
        | inr (x, e) ↦ elim (Bool-cases (renewable account_id x)) [
          | inl y ↦
              rw (e, renew_lease)
                (rw y (
                  omega (
                    arith,
                    expire-count i s now,
                    renewed-count i (expire s now).leases request_id x (now + seconds) e,
                  )))
          | inr n ↦ rw (e, renew_lease) (rw n (expire-count i s now))
        ]
      ]

  pub release-count :
      (s : AccountStore) (request_id account_id : String) (r : Report) (now : ℕ)
      → count p (release s request_id account_id r now).leases ≤ count p s.leases
  unfolding release release_lease
  release-count s request_id account_id r now = elim (Option-cases (get s.leases request_id)) [
    | inl n ↦ rw (n, release_lease) (omega arith)
    | inr (x, e) ↦ elim (Bool-cases (renewable account_id x)) [
      | inl y ↦
          rw (e, release_lease)
            (rw y (
              rw
                (settle_account-leases
                  (record s { leases = put s.leases request_id (close_lease x r now) }) account_id x
                  r now (get s.accounts account_id))
                (inactive-count i s.leases request_id (close_lease x r now)
                  (close_lease-inactive x r now))))
      | inr n ↦ rw (e, release_lease) (rw n (omega arith))
    ]
  ]
