-- ===== src/ProjectUsage/Trace/Leaks.antt =====
-- Calls out of order, and the credit that they lose or lock
-- (src/chatgpt_web_gateway/project_usage.py).
use turtle_chat.Prelude.{
  ℕ, ◌-◌, ◌<◌, ◌≡◌, refl, sym, ap, String, true, false, Option, none, some, string_eq, pair_eq,
  arith, if_holds, any_of, eqb, ℤ,
}
use mathlib.Core.Path.{subst}
use turtle_chat.Dict.{get, values}
use turtle_chat.Dict.Totals.{share, share-le-total}
use turtle_chat.ProjectUsage.Types.{
  raises, Failure, Permission, ApiKey, ProjectRequest, is_reserved, UsageEntry, UsageStore,
}
use turtle_chat.ProjectUsage.Permissions.{first_of, is_pending, is_due, delete_permission}
use turtle_chat.ProjectUsage.Records.{
  record_usage, record_found, record_once, record_new, is_recorded, charge_with, charge_balance,
  settle_request, Spent, item_of, log_usage,
}
use turtle_chat.ProjectUsage.Trace.Prepaid.{
  outstanding, pending_amount, reserved_at, released, due_amount, outstanding-released,
}
use turtle_chat.ProjectUsage.Trace.Reserved.{get-put_self}
use turtle_chat.ProjectUsage.Trace.Settled.{completed_at, outstanding-completed}

charge-reserved :
    (s : UsageStore) (key : ApiKey) (e : Spent) (item : UsageEntry) (row : Permission)
    (o : Option ℤ)
    → get s.permissions key.owner_user_id ≡ some row
    → (reserved_at (get (charge_balance s key e item row o).0.permissions key.owner_user_id)
        ≡ row.reserved_microusd)
      × ((charge_balance s key e item row o).0.requests ≡ s.requests)
charge-reserved s key e item row none g = (ap reserved_at g, refl)
charge-reserved s key e item row (some old) g =
    if_holds
      (λ (r : UsageStore × Option ℤ).
        (reserved_at (get r.0.permissions key.owner_user_id) ≡ row.reserved_microusd)
        × (r.0.requests ≡ s.requests))
      (eqb item.estimated_cost_microusd 0) (λ _. (ap reserved_at g, refl))
      (λ _. (ap reserved_at (get-put_self s.permissions key.owner_user_id _), refl))

abbrev IsLate : String → UsageStore → Type 0
IsLate user s = reserved_at (get s.permissions user) < outstanding user s.requests

closed-pending :
    (r : ProjectRequest) (v : String) → is_reserved r.state ≡ false → pending_amount v r ≡ 0
closed-pending r v c = ground (arith, c)

due-own :
    (user : String) (now : ℕ) (r : ProjectRequest)
    → is_due user now r ≡ true
    → due_amount user now r ≡ r.reserved_microusd
due-own user now r d = rw d refl

completed-IsLate :
    (s : UsageStore) (e : Spent) (item : UsageEntry) (now : ℕ) (key : ApiKey) (row : Permission)
    (r : ProjectRequest)
    → get s.requests (e.key_id, e.request_id) ≡ some r
    → is_reserved r.state ≡ false
    → 0 < r.reserved_microusd
    → 0 < row.reserved_microusd
    → row.reserved_microusd ≡ outstanding key.owner_user_id s.requests
    → IsLate key.owner_user_id
        (charge_with (log_usage s key item) key e item now (some r) (some row)).0
unfolding settle_request completed_at
completed-IsLate s e item now key row r f c a b x =
    let u = key.owner_user_id in
    let kept =
      charge-reserved
        (settle_request (log_usage s key item) u (e.key_id, e.request_id) now (some r) row).0 key e
        item (record row { reserved_microusd = row.reserved_microusd - r.reserved_microusd })
        row.balance_microusd (get-put_self s.permissions u _) in
    omega (
      arith,
      kept.0,
      ap (outstanding u) kept.1,
      outstanding-completed s.requests (e.key_id, e.request_id) r now u f,
      closed-pending r u c,
      a,
      b,
      x,
    )

-- Take a stored request that is no longer open, as one that a later call of the user released on
-- expiry, whose amount is positive and whose usage is not recorded, and whose key and user are
-- stored. If the user has a positive amount reserved, exactly what the open requests hold back,
-- then recording the call frees the request's amount once more: the user has less reserved than
-- the open requests hold back.
pub record_late :
    (s : UsageStore) (e : Spent) (now : ℕ) (key : ApiKey) (row : Permission) (r : ProjectRequest)
    → get s.keys e.key_id ≡ some key
    → get s.permissions key.owner_user_id ≡ some row
    → first_of (is_recorded e.key_id e.request_id) s.usage ≡ none
    → get s.requests (e.key_id, e.request_id) ≡ some r
    → is_reserved r.state ≡ false
    → 0 < r.reserved_microusd
    → 0 < row.reserved_microusd
    → row.reserved_microusd ≡ outstanding key.owner_user_id s.requests
    → reserved_at (get (record_usage s e now).0.permissions key.owner_user_id)
      < outstanding key.owner_user_id (record_usage s e now).0.requests
unfolding record_usage record_once record_new
record_late s e now key row r g p u f c a b x =
    subst (λ o. IsLate key.owner_user_id (record_found s e now o).0) (sym g)
      (subst (λ o. IsLate key.owner_user_id (record_once s key e now o).0) (sym u)
        (subst
          (λ q.
            IsLate key.owner_user_id
              (charge_with (log_usage s key (item_of s e)) key e (item_of s e) now q
                (get s.permissions key.owner_user_id)).0)
          (sym f)
          (subst
            (λ o.
              IsLate key.owner_user_id
                (charge_with (log_usage s key (item_of s e)) key e (item_of s e) now (some r) o).0)
            (sym p) (completed-IsLate s e (item_of s e) now key row r f c a b x))))

-- Take a stored user who has reserved exactly what the open requests hold back, with a request that
-- has run out and holds back a positive amount, and another request that has not run out. An
-- attempt to delete the user then raises, and leaves more reserved than the open requests hold
-- back: the credit of the first stays locked.
pub delete_leaks :
    (s : UsageStore) (user : String) (now : ℕ) (row : Permission) (k : String × String)
    (r : ProjectRequest)
    → get s.permissions user ≡ some row
    → row.reserved_microusd ≡ outstanding user s.requests
    → get s.requests k ≡ some r
    → is_due user now r ≡ true
    → 0 < r.reserved_microusd
    → any_of (is_pending user) (values (released user now s.requests)) ≡ true
    → ((delete_permission s user now).1 ≡ raises Failure.key_conflict)
      × (outstanding user (delete_permission s user now).0.requests
          < reserved_at (get (delete_permission s user now).0.permissions user))
unfolding delete_permission
delete_leaks s user now row k r p x g d a h = rw h (
  refl,
  omega (
    arith,
    outstanding-released user now s.requests,
    share-le-total (due_amount user now) s.requests k,
    ap (share (due_amount user now)) g,
    due-own user now r d,
    a,
    x,
    ap reserved_at p,
  ),
)
