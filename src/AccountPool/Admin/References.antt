-- ===== src/AccountPool/Admin/References.antt =====
-- The pools that accounts refer to, under sequences of administrative calls
-- (src/chatgpt_web_gateway/account_pool.py).
use turtle_chat.Prelude.{
  ℕ, ◌≡◌, refl, String, Bool, Option-cases, inl, inr, false, not, Option, none, some, List, [], ◌∷◌,
  arith, string_eq, ◌==◌, if_holds, any_of, ℤ, eqb,
}
use turtle_chat.Dict.{Dict, get, put, pop, values}
use turtle_chat.Dict.Laws.{get-put, get-pop}
use turtle_chat.Dict.Items.{AllItems, AllItems-get, AllItems-put, AllItems-rewrite}
use turtle_chat.Dict.Keys.{AllItems-map}
use turtle_chat.Quota.Lookup.{Provider, normalize_quota_profile}
use turtle_chat.AccountPool.Types.{Account, AccountGroup, AccountStore}
use turtle_chat.AccountPool.Health.{ProbeState, ready, auth_required, offline, other, apply_probe}
use turtle_chat.AccountPool.Store.{expire, expire_account, active_on, no_key}
use turtle_chat.AccountPool.Admin.Pools.{
  create_pool, update_pool, update_group, delete_pool, belongs_to, named_elsewhere,
}
use turtle_chat.AccountPool.Admin.Accounts.{
  create_account, create_in, update_account, update_found, revised, new_account, AccountForm,
  begin_reauth, begin_with, mark_probe, probe_found, works_elsewhere, provider_of,
}

pub data AdminCall : Type 0 where
  creates_pool : String → Provider → String → String → ℕ → AdminCall
  updates_pool : String → String → String → Bool → ℕ → AdminCall
  deletes_pool : String → AdminCall
  creates_account : String → String → AccountForm → ℕ → AdminCall
  updates_account : String → AccountForm → Bool → ℕ → AdminCall
  begins_reauth : String → ℕ → AdminCall
  marks_probe : String → ProbeState → Option ℕ → ℤ → Option String → Bool → ℕ → AdminCall

abbrev or_same : AccountStore → Option AccountStore → AccountStore
or_same s none = s
or_same s (some s') = s'

-- A call that raises leaves the store as it was.
unfoldable pub admin_step : AccountStore → AdminCall → AccountStore
admin_step s (creates_pool id provider name description now) =
    or_same s (create_pool s id provider name description now)
admin_step s (updates_pool id name description enabled now) =
    or_same s (update_pool s id name description enabled now)
admin_step s (deletes_pool id) = or_same s (delete_pool s id)
admin_step s (creates_account id pool_id form now) =
    or_same s (create_account s id pool_id form now)
admin_step s (updates_account id form enabled now) =
    or_same s (update_account s id form enabled now)
admin_step s (begins_reauth id now) = (begin_reauth s id now).0
admin_step s (marks_probe id state http_status latency_ms name allow_reauth now) =
    or_same s (mark_probe s id state http_status latency_ms name allow_reauth now)

unfoldable pub admin_run : AccountStore → List AdminCall → AccountStore
unfolding admin_step
admin_run s [] = s
admin_run s (call ∷ calls) = admin_run (admin_step s call) calls

abbrev pub InPool : Dict String AccountGroup → Account → Type 0
InPool pools v = no_key (get pools v.pool_id) ≡ false

abbrev pub HasPools : AccountStore → Type 0
HasPools s = AllItems (λ k v. InPool s.pools v) s.accounts

put_pool-InPool :
    (pools : Dict String AccountGroup) (id : String) (g : AccountGroup) (v : Account)
    → InPool pools v
    → InPool (put pools id g) v
put_pool-InPool pools id g v h = rw (get-put pools id v.pool_id g) (ground (arith, h))

pub put_pool-HasPools :
    (s : AccountStore) (id : String) (g : AccountGroup)
    → HasPools s
    → HasPools (record s { pools = put s.pools id g })
put_pool-HasPools s id g h = AllItems-map _ _ s.accounts (λ k v. put_pool-InPool s.pools id g v) h

pop_pool-HasPools :
    (pools : Dict String AccountGroup) (id : String) (d : Dict String Account)
    → any_of (belongs_to id) (values d) ≡ false
    → AllItems (λ k v. InPool pools v) d
    → AllItems (λ k v. InPool (pop pools id) v) d
unfolding any_of values
pop_pool-HasPools pools id [] n h = tt
pop_pool-HasPools pools id ((k, v) ∷ d) n h = (
  rw (get-pop pools id v.pool_id)
      (ground (arith, string_eq.same_iff id v.pool_id, string_eq.same_iff v.pool_id id, h.0)),
  pop_pool-HasPools pools id d (ground (arith, n)) h.1,
)

pub put_account-HasPools :
    (s : AccountStore) (id : String) (v : Account)
    → InPool s.pools v
    → HasPools s
    → HasPools (record s { accounts = put s.accounts id v })
put_account-HasPools s id v p h = AllItems-put _ s.accounts id v h p

revised-pool :
    (v : Account) (form : AccountForm) (profile : String) (enabled : Bool) (now : ℕ)
    → (revised v form profile enabled now).pool_id ≡ v.pool_id
unfolding revised
revised-pool v form profile enabled now = ground arith

probed-pool :
    (v : Account) (state : ProbeState) (code : Option ℕ) (latency : ℤ) (name : Option String)
    (allow : Bool) (now : ℕ)
    → (apply_probe v state code latency name allow now).pool_id ≡ v.pool_id
unfolding apply_probe
probed-pool v ready code latency none allow now = ground arith
probed-pool v ready code latency (some name) allow now = ground arith
probed-pool v auth_required code latency name allow now = refl
probed-pool v offline code latency name allow now = ground arith
probed-pool v other code latency name allow now = ground arith

expired-pool : (now : ℕ) (v : Account) → (expire_account now v).pool_id ≡ v.pool_id
unfolding expire_account
expired-pool now v = ground arith

expire-HasPools : (s : AccountStore) (now : ℕ) → HasPools s → HasPools (expire s now)
unfolding expire
expire-HasPools s now h =
    AllItems-rewrite _ _ (expire_account now) s.accounts (λ k v p. rw (expired-pool now v) p) h

abbrev KeepsPools : AccountStore → Option AccountStore → Type 0
KeepsPools s o = HasPools (or_same s o)

create_in-HasPools :
    (s : AccountStore) (id pool_id : String) (form : AccountForm) (now : ℕ)
    (o : Option AccountGroup)
    → get s.pools pool_id ≡ o
    → HasPools s
    → KeepsPools s (create_in s id pool_id form now o)
create_in-HasPools s id pool_id form now none g h = h
create_in-HasPools s id pool_id form now (some pool) g h =
    if_holds (KeepsPools s)
      (any_of (λ item. item.worker_endpoint == form.worker_endpoint) (values s.accounts)) (λ _. h)
      λ _.
        if_holds (KeepsPools s) (not (no_key (get s.accounts id))) (λ _. h)
          λ _. elim (Option-cases (normalize_quota_profile form.quota_profile pool.provider)) [
            | inl n ↦ rw n h
            | inr (profile, e) ↦
                rw e (put_account-HasPools s id _ (unfold new_account in rw g refl) h)
          ]

update_found-HasPools :
    (s : AccountStore) (id : String) (form : AccountForm) (enabled : Bool) (now : ℕ)
    (o : Option Account)
    → get s.accounts id ≡ o
    → HasPools s
    → KeepsPools s (update_found s id form enabled now o)
update_found-HasPools s id form enabled now none g h = h
update_found-HasPools s id form enabled now (some v) g h =
    if_holds (KeepsPools s) (any_of (works_elsewhere id form.worker_endpoint) (values s.accounts))
      (λ _. h)
      λ _.
        elim (Option-cases
          (normalize_quota_profile form.quota_profile (provider_of (get s.pools v.pool_id)))) [
            | inl n ↦ rw n h
            | inr (profile, e) ↦ rw e (
                put_account-HasPools s id _
                  (rw (revised-pool v form profile enabled now)
                    (AllItems-get _ s.accounts id v h g))
                  h)
          ]

update_group-HasPools :
    (s : AccountStore) (id name description : String) (enabled : Bool) (now : ℕ)
    (o : Option AccountGroup)
    → HasPools s
    → KeepsPools s (update_group s id name description enabled now o)
update_group-HasPools s id name description enabled now none h = h
update_group-HasPools s id name description enabled now (some g) h =
    if_holds (KeepsPools s) (any_of (named_elsewhere id name) (values s.pools)) (λ _. h)
      λ _. put_pool-HasPools s id _ h

probe_found-HasPools :
    (s : AccountStore) (id : String) (state : ProbeState) (code : Option ℕ) (latency : ℤ)
    (name : Option String) (allow : Bool) (now : ℕ) (o : Option Account)
    → get s.accounts id ≡ o
    → HasPools s
    → KeepsPools s (probe_found s id state code latency name allow now o)
probe_found-HasPools s id state code latency name allow now none g h = h
probe_found-HasPools s id state code latency name allow now (some v) g h =
    put_account-HasPools s id _
      (rw (probed-pool v state code latency name allow now) (AllItems-get _ s.accounts id v h g)) h

begin_with-HasPools :
    (s : AccountStore) (id : String) (now : ℕ) (o : Option Account)
    → get s.accounts id ≡ o
    → HasPools s
    → HasPools (begin_with s id now o).0
begin_with-HasPools s id now none g h = h
begin_with-HasPools s id now (some v) g h =
    if_holds (λ (r : AccountStore × Bool). HasPools r.0) (eqb (active_on id s.leases) 0)
      (λ _. put_account-HasPools s id _ (AllItems-get _ s.accounts id v h g) h) (λ _. h)

admin_step-HasPools :
    (s : AccountStore) (call : AdminCall) → HasPools s → HasPools (admin_step s call)
unfolding admin_step create_pool update_pool delete_pool create_account update_account begin_reauth
    mark_probe
admin_step-HasPools s (creates_pool id provider name description now) h =
    if_holds (KeepsPools s) (any_of (λ item. item.name == name) (values s.pools)) (λ _. h)
      λ _. put_pool-HasPools s id _ h
admin_step-HasPools s (updates_pool id name description enabled now) h =
    update_group-HasPools s id name description enabled now (get s.pools id) h
admin_step-HasPools s (deletes_pool id) h =
    if_holds (KeepsPools s) (no_key (get s.pools id)) (λ _. h)
      λ _.
        if_holds (KeepsPools s) (any_of (belongs_to id) (values s.accounts)) (λ _. h)
          λ free. pop_pool-HasPools s.pools id s.accounts free h
admin_step-HasPools s (creates_account id pool_id form now) h =
    create_in-HasPools s id pool_id form now (get s.pools pool_id) refl h
admin_step-HasPools s (updates_account id form enabled now) h =
    update_found-HasPools s id form enabled now (get s.accounts id) refl h
admin_step-HasPools s (begins_reauth id now) h =
    begin_with-HasPools (expire s now) id now (get (expire s now).accounts id) refl
      (expire-HasPools s now h)
admin_step-HasPools s (marks_probe id state code latency name allow now) h =
    probe_found-HasPools s id state code latency name allow now (get s.accounts id) refl h

-- If every account of a store stands in a pool of the store, the same is true after any sequence
-- of administrative calls: pools are never deleted under their accounts.
pub admin_run-HasPools :
    (s : AccountStore) (calls : List AdminCall) → HasPools s → HasPools (admin_run s calls)
unfolding admin_run
admin_run-HasPools s [] h = h
admin_run-HasPools s (call ∷ calls) h =
    admin_run-HasPools (admin_step s call) calls (admin_step-HasPools s call h)
