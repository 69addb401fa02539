-- ===== src/ProjectUsage/Trace/Booked.antt =====
-- What the ledger says of a balance, and the calls that grant and reserve credit
-- (src/chatgpt_web_gateway/project_usage.py).
use turtle_chat.Prelude.{
  ℕ, ◌+◌, ◌≡◌, refl, ap, ◌∙◌, String, Bool, true, not, ◌||◌, Option, none, some, ◌==◌, string_eq,
  ==_eq, ==_refl, ◌&&◌, at_least, pair_eq, List, [], ◌∷◌, ◌++◌, arith, if◌then◌else◌, if_holds,
  sum_of, sum_of-snoc, ℤ, pos, negsuc, difference, plus-difference, Bool-cases, inl, inr,
}
use mathlib.Core.Path.{subst}
use turtle_chat.Dict.{Dict, get, put}
use turtle_chat.Dict.Laws.{get-put}
use turtle_chat.ProjectUsage.Types.{
  Reply, Permission, ApiKey, ProjectRequest, LedgerEntry, UsageStore,
}
use turtle_chat.ProjectUsage.Cost.{actual_cost}
use turtle_chat.ProjectUsage.Permissions.{
  set_permission, permission_or_new, keys_in_range, Grant, is_positive, size_of, grant_to,
  grant_once, grant_found, grant_credit, first_of, is_repeat, same_amount,
}
use turtle_chat.ProjectUsage.Requests.{
  begin_request, begin_new, begin_with, begin_for, lacks, reserve_for, refreshed, held_back,
}

pub add_none : (n : ℕ) → n + 0 ≡ n
add_none n = omega arith

-- The positive and the negative part of an amount.
abbrev pub gain : ℤ → ℕ
gain (pos n) = n
gain (negsuc n) = 0

abbrev pub loss : ℤ → ℕ
loss (pos n) = 0
loss (negsuc n) = n + 1

abbrev gain_of : String → LedgerEntry → ℕ
gain_of user e = if e.user_id == user then gain e.amount_microusd else 0

abbrev loss_of : String → LedgerEntry → ℕ
loss_of user e = if e.user_id == user then loss e.amount_microusd else 0

-- What the ledger says that a user was given, and was charged.
unfoldable pub given : String → List LedgerEntry → ℕ
given user ledger = sum_of (gain_of user) ledger

unfoldable pub spent : String → List LedgerEntry → ℕ
spent user ledger = sum_of (loss_of user) ledger

abbrev pub Booked : Option Permission → ℕ → ℕ → Type 0
Booked none g l = (g ≡ 0) × (l ≡ 0)
Booked (some row) g l = row.balance_microusd ≡ some (difference g l)

abbrev pub IsBooked : UsageStore → Type 0
IsBooked s =
    (user : String)
    → Booked (get s.permissions user) (given user s.credit_ledger) (spent user s.credit_ledger)

-- A write of a user's row that keeps the balance, with the ledger as it was.
put_row-Booked :
    (d : Dict String Permission) (ledger : List LedgerEntry) (u : String) (row' : Permission)
    → Booked (some row') (given u ledger) (spent u ledger)
    → ((user : String) → Booked (get d user) (given user ledger) (spent user ledger))
    → (user : String) → Booked (get (put d u row') user) (given user ledger) (spent user ledger)
put_row-Booked d ledger u row' h w user =
    rw (get-put d u user row') (elim (Bool-cases (u == user)) [
      | inl y ↦
          rw y
            (subst (λ v. Booked (some row') (given v ledger) (spent v ledger)) (==_eq u user y) h)
      | inr n ↦ rw n (w user)
    ])

-- A write of a user's row together with an entry of the ledger.
pub put_entry-Booked :
    (s : UsageStore) (u : String) (row' : Permission) (e : LedgerEntry)
    → e.user_id ≡ u
    → row'.balance_microusd
      ≡ some (
          difference
            (given u s.credit_ledger + gain e.amount_microusd)
            (spent u s.credit_ledger + loss e.amount_microusd))
    → IsBooked s
    → IsBooked (record s {
      permissions = put s.permissions u row';
      credit_ledger = s.credit_ledger ++ e ∷ [];
    })
unfolding given spent
put_entry-Booked s u row' e i h w user =
    rw
      (
        get-put s.permissions u user row',
        sum_of-snoc (gain_of user) s.credit_ledger e,
        sum_of-snoc (loss_of user) s.credit_ledger e,
      )
      (elim (Bool-cases (u == user)) [
        | inl y ↦
            rw (i, y)
              ((subst
                (λ v.
                  row'.balance_microusd
                  ≡ some (
                      difference (given v s.credit_ledger + gain e.amount_microusd)
                        (spent v s.credit_ledger + loss e.amount_microusd)))
                (==_eq u user y) h))
        | inr n ↦ rw (i, n, add_none, add_none) (w user)
      ])

pub set_permission-IsBooked :
    (s : UsageStore) (u : String) (enabled : Bool) (by : String) (m : Option ℤ) (now : ℕ)
    → IsBooked s
    → IsBooked (set_permission s u enabled by m now).0
unfolding set_permission
set_permission-IsBooked s u enabled by m now w =
    if_holds (λ (r : UsageStore × Reply Permission). IsBooked r.0)
      (u == "" || not (keys_in_range m)) (λ _. w)
      λ _. put_row-Booked s.permissions s.credit_ledger u _ (row_kept (get s.permissions u) refl) w
  where
    row_kept :
        (o : Option Permission)
        → get s.permissions u ≡ o
        → (permission_or_new u now o).balance_microusd
          ≡ some (difference (given u s.credit_ledger) (spent u s.credit_ledger))
    row_kept none e =
        let h = subst (λ o. Booked o (given u s.credit_ledger) (spent u s.credit_ledger)) e (w u) in
        rw (h.0, h.1) refl
    row_kept (some row) e =
        subst (λ o. Booked o (given u s.credit_ledger) (spent u s.credit_ledger)) e (w u)

pub booked-row :
    (s : UsageStore) (u : String) (row : Permission)
    → IsBooked s
    → get s.permissions u ≡ some row
    → row.balance_microusd ≡ some (difference (given u s.credit_ledger) (spent u s.credit_ledger))
booked-row s u row w e =
    subst (λ o. Booked o (given u s.credit_ledger) (spent u s.credit_ledger)) e (w u)

gain-size : (z : ℤ) → is_positive z ≡ true → (gain z ≡ size_of z) × (loss z ≡ 0)
gain-size (pos n) h = (refl, refl)
gain-size (negsuc n) h = cc

grant_to-IsBooked :
    (s : UsageStore) (g : Grant) (now : ℕ) (row : Permission)
    → is_positive g.amount_microusd ≡ true
    → get s.permissions g.user_id ≡ some row
    → IsBooked s
    → IsBooked (grant_to s g now row).0
grant_to-IsBooked s g now row p e w =
    let b = booked-row s g.user_id row w e in
    let z = gain-size g.amount_microusd p in
    put_entry-Booked s g.user_id _ _ refl
      (rw (b, z.0, z.1, add_none)
        (ap some (
          plus-difference (given g.user_id s.credit_ledger) (spent g.user_id s.credit_ledger)
            (size_of g.amount_microusd))))
      w

pub grant_credit-IsBooked :
    (s : UsageStore) (g : Grant) (now : ℕ) → IsBooked s → IsBooked (grant_credit s g now).0
unfolding grant_credit
grant_credit-IsBooked s g now w = elim (Bool-cases (is_positive g.amount_microusd)) [
  | inl y ↦ rw y (found (get s.permissions g.user_id) refl y)
  | inr n ↦ rw n w
]
  where
    once :
        (row : Permission) (o : Option LedgerEntry)
        → get s.permissions g.user_id ≡ some row
        → is_positive g.amount_microusd ≡ true
        → IsBooked (grant_once s g now row o).0
    once row none e y = grant_to-IsBooked s g now row y e w
    once row (some existing) e y =
        if_holds (λ (r : UsageStore × Reply LedgerEntry). IsBooked r.0)
          (same_amount existing.amount_microusd g.amount_microusd && existing.reason == g.reason)
          (λ _. w) (λ _. w)

    found :
        (o : Option Permission)
        → get s.permissions g.user_id ≡ o
        → is_positive g.amount_microusd ≡ true
        → IsBooked (grant_found s g now o).0
    found none e y = w
    found (some row) e y = once row (first_of (is_repeat g) s.credit_ledger) e y

-- A row of the user whose reservations alone change.
pub held-IsBooked :
    (s : UsageStore) (u : String) (row row' : Permission)
    → get s.permissions u ≡ some row
    → row'.balance_microusd ≡ row.balance_microusd
    → IsBooked s
    → (user : String)
    → Booked
        (get (put s.permissions u row') user)
        (given user s.credit_ledger)
        (spent user s.credit_ledger)
held-IsBooked s u row row' e b w =
    put_row-Booked s.permissions s.credit_ledger u row' (b ∙ booked-row s u row w e) w

reserve_for-IsBooked :
    (s : UsageStore) (k i u : String) (row : Permission) (authorized now : ℕ)
    → get s.permissions u ≡ some row
    → IsBooked s
    → IsBooked (reserve_for s k i u row authorized now).0
unfolding reserve_for
reserve_for-IsBooked s k i u row authorized now e w =
    if_holds (λ (r : UsageStore × Reply ProjectRequest). IsBooked r.0)
      (lacks row.balance_microusd row.reserved_microusd
        (actual_cost authorized s.config.cost_multiplier_ppm))
      (λ _. w) (λ _. held-IsBooked s u row _ e refl w)

pub get-put_self :
    (d : Dict String Permission) (u : String) (row : Permission) → get (put d u row) u ≡ some row
get-put_self d u row = rw (get-put d u u row) (rw (==_refl u) refl)

begin_for-IsBooked :
    (s : UsageStore) (k i : String) (key : ApiKey) (authorized now : ℕ) (o : Option Permission)
    → get s.permissions key.owner_user_id ≡ o
    → IsBooked s
    → IsBooked (begin_for s k i key authorized now o).0
unfolding begin_for
begin_for-IsBooked s k i key authorized now none e w = w
begin_for-IsBooked s k i key authorized now (some row) e w =
    if_holds (λ (r : UsageStore × Reply ProjectRequest). IsBooked r.0) (not row.enabled) (λ _. w)
      λ _.
        reserve_for-IsBooked (refreshed s key.owner_user_id row now) k i key.owner_user_id
          (held_back s key.owner_user_id row now) authorized now
          (get-put_self s.permissions key.owner_user_id (held_back s key.owner_user_id row now))
          (held-IsBooked s key.owner_user_id row (held_back s key.owner_user_id row now) e refl w)

pub begin_request-IsBooked :
    (s : UsageStore) (k i : String) (z : ℤ) (now : ℕ)
    → IsBooked s
    → IsBooked (begin_request s k i z now).0
unfolding begin_request
begin_request-IsBooked s k i z now w = fresh (get s.requests (k, i))
  where
    known : (o : Option ApiKey) → IsBooked (begin_with s k i (at_least 0 z) now o).0
    known none = w
    known (some key) =
        begin_for-IsBooked s k i key (at_least 0 z) now (get s.permissions key.owner_user_id) refl w

    fresh : (o : Option ProjectRequest) → IsBooked (begin_new s k i (at_least 0 z) now o).0
    fresh (some used) = w
    fresh none = known (get s.keys k)
