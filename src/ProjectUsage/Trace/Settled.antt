-- ===== src/ProjectUsage/Trace/Settled.antt =====
-- A recorded request and the credit that it held back
-- (src/chatgpt_web_gateway/project_usage.py).
use turtle_chat.Prelude.{
  ℕ, ◌+◌, ◌-◌, ◌≤◌, ◌≡◌, refl, sym, ap, ◌∙◌, String, true, false, Option, none, some, ◌==◌,
  string_eq, ==_refl, pair_eq, arith, if_holds, eqb, ℤ, pos, negsuc, below, minus, some_inj,
}
use mathlib.Core.Path.{subst}
use turtle_chat.Dict.{Dict, get, put}
use turtle_chat.Dict.Items.{AllItems-put, AllItems-get}
use turtle_chat.Dict.Totals.{share, total-put, share-le-total}
use turtle_chat.ProjectUsage.Types.{
  Permission, ApiKey, ProjectRequest, RequestState, is_reserved, UsageEntry, UsageStore,
}
use turtle_chat.ProjectUsage.Permissions.{first_of}
use turtle_chat.ProjectUsage.Records.{
  record_usage, record_found, record_once, record_new, is_recorded, charge_with, charge_balance,
  settle_request, Spent, item_of, log_usage, used_key,
}
use turtle_chat.ProjectUsage.Trace.{records}
use turtle_chat.ProjectUsage.Trace.Prepaid.{
  Requests, outstanding, pending_amount, reserved_at, Covers, Owns, AreOwned, put_row-Prepaid,
  row-exact, row-solvent, put_key-Prepaid,
}
use turtle_chat.ProjectUsage.Trace.Reserved.{
  IsPrepaid, Settles, IsOrderly, same_row-Prepaid, get-put_self, fewer-Covers,
}

minus-Covers :
    (o : Option ℤ) (held back cost : ℕ)
    → Covers o held
    → back ≤ held
    → cost ≤ back
    → (z : ℤ) → o ≡ some z
    → below (minus z cost) (held - back) ≡ false
minus-Covers o held back cost c h k (pos a) e = let c' = rw e at c in ground (arith, c')
minus-Covers o held back cost c h k (negsuc a) e = let c' = rw e at c in cc (c')

uncharged-Covers :
    (o : Option ℤ) (held cost : ℕ)
    → cost ≡ 0
    → Covers o held
    → (z : ℤ) → o ≡ some z
    → below (minus z cost) held ≡ false
uncharged-Covers o held cost k c (pos a) e = let c' = rw e at c in ground (arith, c')
uncharged-Covers o held cost k c (negsuc a) e = let c' = rw e at c in cc (c')

-- The requests once one is completed.
unfoldable pub completed_at : Requests → String × String → ProjectRequest → ℕ → Requests
completed_at requests key r now =
    put requests key (record r { state = RequestState.completed; updated_at = now })

completed-pending :
    (r : ProjectRequest) (now : ℕ) (v : String)
    → pending_amount v (record r { state = RequestState.completed; updated_at = now }) ≡ 0
completed-pending r now v = ground arith

pending-own :
    (r : ProjectRequest) (v : String)
    → v ≡ r.owner_user_id
    → is_reserved r.state ≡ true
    → pending_amount v r ≡ r.reserved_microusd
pending-own r v o h = rw o (rw (==_refl r.owner_user_id) (rw h refl))

pending-other :
    (r : ProjectRequest) (v u : String)
    → u ≡ r.owner_user_id
    → (u == v) ≡ false
    → pending_amount v r ≡ 0
pending-other r v u o n = let m = rw o at n in rw m refl

pub outstanding-completed :
    (requests : Requests) (key : String × String) (r : ProjectRequest) (now : ℕ) (v : String)
    → get requests key ≡ some r
    → outstanding v (completed_at requests key r now) + pending_amount v r ≡ outstanding v requests
unfolding outstanding completed_at
outstanding-completed requests key r now v g =
    let t =
      total-put (pending_amount v) requests key
        (record r { state = RequestState.completed; updated_at = now }) in
    omega (arith, t, ap (share (pending_amount v)) g, completed-pending r now v)

pending-le-outstanding :
    (requests : Requests) (key : String × String) (r : ProjectRequest) (v : String)
    → get requests key ≡ some r
    → pending_amount v r ≤ outstanding v requests
unfolding outstanding
pending-le-outstanding requests key r v g =
    omega (arith, share-le-total (pending_amount v) requests key, ap (share (pending_amount v)) g)

completed-AreOwned :
    (keys : Dict String ApiKey) (requests : Requests) (key : String × String) (r : ProjectRequest)
    (now : ℕ)
    → get requests key ≡ some r
    → AreOwned keys requests
    → AreOwned keys (completed_at requests key r now)
unfolding completed_at
completed-AreOwned keys requests key r now g o =
    AllItems-put _ requests key _ o (AllItems-get _ requests key r o g)

charge-IsPrepaid :
    (s : UsageStore) (key : ApiKey) (e : Spent) (item : UsageEntry) (row : Permission)
    (o : Option ℤ)
    → get s.permissions key.owner_user_id ≡ some row
    → row.balance_microusd ≡ o
    → ((z : ℤ)
        → o ≡ some z
        → below (minus z item.estimated_cost_microusd) row.reserved_microusd ≡ false)
    → IsPrepaid s
    → IsPrepaid (charge_balance s key e item row o).0
charge-IsPrepaid s key e item row none g b c w = w
charge-IsPrepaid s key e item row (some old) g b c w =
    if_holds (λ (r : UsageStore × Option ℤ). IsPrepaid r.0) (eqb item.estimated_cost_microusd 0)
      (λ _. w) λ _. same_row-Prepaid s key.owner_user_id _ w (ap reserved_at (sym g)) (c old refl)

module _ (s : UsageStore) (key : ApiKey) (e : Spent) (now : ℕ) (w : IsPrepaid s)
    (g : get s.keys e.key_id ≡ some key) where
  abbrev logged : UsageStore
  logged = log_usage s key (item_of s e)

  abbrev cost : ℕ
  cost = (item_of s e).estimated_cost_microusd

  logged-IsPrepaid : IsPrepaid logged
  logged-IsPrepaid =
      put_key-Prepaid w e.key_id (used_key key (item_of s e))
        (λ old h. ap ApiKey.owner_user_id (some_inj (sym g ∙ h)))

  settled_row-IsPrepaid :
      (r : ProjectRequest) (row : Permission)
      → get s.requests (e.key_id, e.request_id) ≡ some r
      → get s.permissions key.owner_user_id ≡ some row
      → Settles s e (some r)
      → IsPrepaid (charge_with logged key e (item_of s e) now (some r) (some row)).0
  unfolding settle_request completed_at
  settled_row-IsPrepaid r row f p t =
      let owner =
        subst (λ o. Owns o r.owner_user_id) g
          (AllItems-get _ s.requests (e.key_id, e.request_id) r w.owned f) in
      let held =
        outstanding-completed s.requests (e.key_id, e.request_id) r now key.owner_user_id f in
      let within =
        pending-le-outstanding s.requests (e.key_id, e.request_id) r key.owner_user_id f in
      let amount = pending-own r key.owner_user_id owner t.0 in
      let exact = row-exact w key.owner_user_id row p in
      charge-IsPrepaid _ key e (item_of s e) _ row.balance_microusd
        (get-put_self s.permissions key.owner_user_id _) refl
        (λ z h.
          minus-Covers row.balance_microusd row.reserved_microusd r.reserved_microusd cost
            (row-solvent w key.owner_user_id row p) (omega (arith, within, amount, exact)) t.1 z h)
        (put_row-Prepaid logged-IsPrepaid key.owner_user_id _
          (completed_at s.requests (e.key_id, e.request_id) r now)
          (omega (arith, held, amount, exact))
          (fewer-Covers row.balance_microusd row.reserved_microusd _
            (row-solvent w key.owner_user_id row p) (omega arith))
          (λ v n. omega (
            arith,
            outstanding-completed s.requests (e.key_id, e.request_id) r now v f,
            pending-other r v key.owner_user_id owner n,
          ))
          (completed-AreOwned _ s.requests (e.key_id, e.request_id) r now f logged-IsPrepaid.owned))

  recorded-IsPrepaid :
      (q : Option ProjectRequest) (o : Option Permission)
      → get s.requests (e.key_id, e.request_id) ≡ q
      → get s.permissions key.owner_user_id ≡ o
      → Settles s e q
      → IsPrepaid (charge_with logged key e (item_of s e) now q o).0
  unfolding settle_request
  recorded-IsPrepaid q none f p t = logged-IsPrepaid
  recorded-IsPrepaid none (some row) f p t =
      charge-IsPrepaid logged key e (item_of s e) row row.balance_microusd p refl
        (λ z h.
          uncharged-Covers row.balance_microusd row.reserved_microusd cost t
            (row-solvent w key.owner_user_id row p) z h)
        logged-IsPrepaid
  recorded-IsPrepaid (some r) (some row) f p t = settled_row-IsPrepaid r row f p t

pub record_usage-IsPrepaid :
    (s : UsageStore) (e : Spent) (now : ℕ)
    → IsOrderly s (records e now)
    → IsPrepaid s
    → IsPrepaid (record_usage s e now).0
unfolding record_usage record_once record_new
record_usage-IsPrepaid s e now h w = found (get s.keys e.key_id) refl
  where
    once :
        (key : ApiKey) (o : Option UsageEntry)
        → get s.keys e.key_id ≡ some key
        → first_of (is_recorded e.key_id e.request_id) s.usage ≡ o
        → IsPrepaid (record_once s key e now o).0
    once key (some item) g u = w
    once key none g u =
        recorded-IsPrepaid s key e now w g (get s.requests (e.key_id, e.request_id))
          (get s.permissions key.owner_user_id) refl refl (h u)

    found : (o : Option ApiKey) → get s.keys e.key_id ≡ o → IsPrepaid (record_found s e now o).0
    found none g = w
    found (some key) g = once key (first_of (is_recorded e.key_id e.request_id) s.usage) g refl
