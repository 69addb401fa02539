-- ===== src/AccountPool/Acquire/Released.antt =====
-- What `release` does to a store (src/chatgpt_web_gateway/account_pool.py).
use turtle_chat.Prelude.{
  ℕ, ◌+◌, ◌-◌, ◌≤◌, ◌<◌, ◌≡◌, refl, String, Bool, Bool-cases, inl, inr, true, false, not, Option,
  none, some, arith, string_eq, ◌==◌, ==_refl, if_false,
}
use turtle_chat.Dict.{Dict, get, put}
use turtle_chat.Dict.Laws.{get-put}
use turtle_chat.AccountPool.Types.{Account, PoolLease, LaneBlock, AccountStore}
use turtle_chat.Prelude.{pair_eq}
use turtle_chat.AccountPool.Cooldown.{cooldown_bounds}
use turtle_chat.AccountPool.Health.{apply_account_result, admission_eligible, is_harmless}
use turtle_chat.AccountPool.Acquire.{
  release, release_lease, settle_account, renewable, close_lease, Report, key_of, next_blocks,
  block_lane, first_limit_at, failures_of, lane_of,
}
use turtle_chat.AccountPool.Trace.Leases.{close_lease-inactive}
use turtle_chat.Quota.Lane.{Lane}
use turtle_chat.Quota.Lookup.{quota_lane}
use turtle_chat.AccountPool.Usage.{QuotaUsage, lane_snapshot}

settle_account-same_leases :
    (s : AccountStore) (id : String) (x : PoolLease) (r : Report) (now : ℕ) (o : Option Account)
    → (settle_account s id x r now o).leases ≡ s.leases
unfolding settle_account
settle_account-same_leases s id x r now none = refl
settle_account-same_leases s id x r now (some account) = refl

-- A lease that may not be released: there is none, or it is not active, or not the account's.
abbrev is_shut : String → Option PoolLease → Bool
is_shut account_id none = true
is_shut account_id (some x) = not (renewable account_id x)

release_lease-shut :
    (s : AccountStore) (request_id account_id : String) (r : Report) (now : ℕ)
    (o : Option PoolLease)
    → is_shut account_id o ≡ true
    → release_lease s request_id account_id r now o ≡ s
unfolding release_lease
release_lease-shut s request_id account_id r now none h = refl
release_lease-shut s request_id account_id r now (some x) h =
    if_false (renewable account_id x) _ _ (ground (arith, h))

release_lease-shuts :
    (s : AccountStore) (request_id account_id : String) (r : Report) (now : ℕ)
    (o : Option PoolLease)
    → get s.leases request_id ≡ o
    → is_shut account_id (get (release_lease s request_id account_id r now o).leases request_id)
      ≡ true
unfolding release_lease
release_lease-shuts s request_id account_id r now none h = rw h refl
release_lease-shuts s request_id account_id r now (some x) h =
    elim (Bool-cases (renewable account_id x)) [
      | inl y ↦ rw y (
          rw
            (settle_account-same_leases
              (record s { leases = put s.leases request_id (close_lease x r now) }) account_id x r
              now (get s.accounts account_id))
            (rw (get-put s.leases request_id request_id (close_lease x r now))
              (rw (==_refl request_id) (ground (arith, close_lease-inactive x r now)))))
      | inr n ↦ rw n (rw h (rw n refl))
    ]

-- After a release, another one of the same request and account, whatever it reports and whenever
-- it comes, changes nothing.
pub release_twice :
    (s : AccountStore) (request_id account_id : String) (r r' : Report) (now now' : ℕ)
    → release (release s request_id account_id r now) request_id account_id r' now'
      ≡ release s request_id account_id r now
unfolding release
release_twice s request_id account_id r r' now now' =
    release_lease-shut _ request_id account_id r' now' _
      (release_lease-shuts s request_id account_id r now (get s.leases request_id) refl)

-- The store after a rate limit.
pub record IsLimited (s : AccountStore) (account : Account) (account_id key : String) (r : Report)
    (now : ℕ) (after : AccountStore) : Type 0 where
  pub block : LaneBlock
  pub blocked : get after.lane_blocks (account_id, key) ≡ some block
  -- `blocked_until` is the time of the next probe: whatever the clock shows, a lane with a block
  -- takes no request and is no capacity.
  pub closed :
      (l : Lane) (u : QuotaUsage)
      → ((lane_snapshot l u (some block.blocked_until)).is_available ≡ false)
        × ((lane_snapshot l u (some block.blocked_until)).admission_available ≡ false)
  pub later : now < block.blocked_until
  pub bounded : block.blocked_until ≤ now + 86400
  pub counted : block.consecutive_failures ≡ failures_of (get s.lane_blocks (account_id, key)) + 1
  pub other_lanes :
      (k : String × String)
      → ((account_id, key) == k) ≡ false
      → get after.lane_blocks k ≡ get s.lane_blocks k
  pub other_accounts :
      (id : String) → (account_id == id) ≡ false → get after.accounts id ≡ get s.accounts id
  pub account_after : Account
  pub stored : get after.accounts account_id ≡ some account_after
  pub admitted : account.enabled ≡ true → (t : ℕ) → admission_eligible account_after t ≡ true

blocked-closed :
    (l : Lane) (u : QuotaUsage) (t : ℕ)
    → ((lane_snapshot l u (some t)).is_available ≡ false)
      × ((lane_snapshot l u (some t)).admission_available ≡ false)
unfolding lane_snapshot
blocked-closed l u t = (ground arith, ground arith)

limited_account-eligible :
    (account : Account) (r : Report) (now t : ℕ)
    → r.status_code ≡ some 429
    → is_harmless r.outcome ≡ false
    → account.enabled ≡ true
    → admission_eligible
        (apply_account_result account r.outcome r.status_code r.error_class r.cooldown_seconds now)
        t
      ≡ true
unfolding apply_account_result admission_eligible
limited_account-eligible account r now t c h e = rw (c, h) (rw e refl)

module _ (s : AccountStore) (lease : PoolLease) (r : Report) (now : ℕ) (account : Account) where
  abbrev limited : String → LaneBlock
  limited account_id =
      block_lane account_id (key_of lease)
        (lane_of (quota_lane account.quota_profile (key_of lease) account.provider)) r now
        (get s.lane_blocks (account_id, key_of lease))

  limited_blocks :
      (account_id : String)
      → r.status_code ≡ some 429
      → next_blocks s.lane_blocks account_id
          (key_of lease)
          (lane_of (quota_lane account.quota_profile (key_of lease) account.provider))
          r
          now
        ≡ put s.lane_blocks (account_id, key_of lease) (limited account_id)
  unfolding next_blocks
  limited_blocks account_id c = rw c refl

  limited-later :
      (account_id : String)
      → (now < (limited account_id).blocked_until)
        × ((limited account_id).blocked_until ≤ now + 86400)
  unfolding block_lane
  limited-later account_id =
      let b =
        cooldown_bounds (lane_of (quota_lane account.quota_profile (key_of lease) account.provider))
          (failures_of (get s.lane_blocks (account_id, key_of lease)) + 1) r.cooldown_seconds
          (now - first_limit_at (get s.lane_blocks (account_id, key_of lease)) now)
          r.retry_after_seconds in
      (omega (arith, b.0), omega (arith, b.1))

  settled-IsLimited :
      (leases : Dict String PoolLease) (account_id : String)
      → r.status_code ≡ some 429
      → is_harmless r.outcome ≡ false
      → IsLimited s account account_id
          (key_of lease)
          r
          now
          (settle_account (record s { leases = leases }) account_id lease r now (some account))
  unfolding settle_account block_lane
  settled-IsLimited leases account_id c h = record {
    block = limited account_id;
    blocked = rw (limited_blocks account_id c) (
        rw
          (get-put s.lane_blocks (account_id, key_of lease) (account_id, key_of lease)
            (limited account_id))
          (rw (==_refl {A = String × String} (account_id, key_of lease)) refl));
    closed = λ l u. blocked-closed l u (limited account_id).blocked_until;
    later = (limited-later account_id).0;
    bounded = (limited-later account_id).1;
    counted = refl;
    other_lanes = λ k n.
        rw (limited_blocks account_id c) (
          rw (get-put s.lane_blocks (account_id, key_of lease) k (limited account_id)) (rw n refl));
    other_accounts = λ id n.
        rw
          (get-put s.accounts account_id id (
            apply_account_result account r.outcome r.status_code r.error_class r.cooldown_seconds
              now))
          (rw n refl);
    account_after =
        apply_account_result account r.outcome r.status_code r.error_class r.cooldown_seconds now;
    stored =
        rw
          (get-put s.accounts account_id account_id (
            apply_account_result account r.outcome r.status_code r.error_class r.cooldown_seconds
              now))
          (rw (==_refl account_id) refl);
    admitted = λ e t. limited_account-eligible account r now t c h e;
  }

-- A release with status 429 and an outcome that counts as a failure, of an active lease of a
-- stored account: it stores a block of the lane of the account and the lease's selection key, with
-- one failure more. A lane with that block takes no request, whatever the time; the block's time
-- for the next probe is after now and at most a day later. Every other block and account is as it
-- was, and the account itself stays admissible at all times if it is enabled.
pub release-IsLimited :
    (s : AccountStore) (request_id account_id : String) (lease : PoolLease) (account : Account)
    (r : Report) (now : ℕ)
    → get s.leases request_id ≡ some lease
    → renewable account_id lease ≡ true
    → get s.accounts account_id ≡ some account
    → r.status_code ≡ some 429
    → is_harmless r.outcome ≡ false
    → IsLimited s account account_id (key_of lease) r now (release s request_id account_id r now)
unfolding release release_lease
release-IsLimited s request_id account_id lease account r now g y a c h = rw g (
    rw y (
      rw a (
        settled-IsLimited s lease r now account (put s.leases request_id (close_lease lease r now))
          account_id c h)))
