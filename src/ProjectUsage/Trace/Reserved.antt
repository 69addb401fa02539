-- ===== src/ProjectUsage/Trace/Reserved.antt =====
-- The credit that is held back along orderly calls (src/chatgpt_web_gateway/project_usage.py).
use turtle_chat.Prelude.{
  ℕ, ◌+◌, ◌≤◌, ◌≡◌, refl, sym, ap, ◌∙◌, String, Bool, true, false, not, ◌&&◌, ◌||◌, Option, none,
  some, ◌==◌, string_eq, ==_refl, pair_eq, List, [], ◌∷◌, arith, if◌then◌else◌, if_holds, any_of, ℤ,
  pos, negsuc, below, plus, at_least, Bool-cases, inl, inr,
}
use mathlib.Core.Path.{subst}
use turtle_chat.Dict.{Dict, get, put, values}
use turtle_chat.Dict.Laws.{get-put}
use turtle_chat.Dict.Items.{AllItems-put}
use turtle_chat.Dict.Keys.{get-rewrite-none}
use turtle_chat.Dict.Totals.{share, total-put}
use turtle_chat.ProjectUsage.Types.{
  Reply, Permission, ApiKey, ProjectRequest, is_reserved, LedgerEntry, UsageStore,
}
use turtle_chat.ProjectUsage.Cost.{actual_cost}
use turtle_chat.ProjectUsage.Permissions.{
  set_permission, permission_or_new, keys_in_range, Grant, grant_to, grant_once, grant_found,
  grant_credit, first_of, is_repeat, same_amount, balance_or_zero, size_of, is_positive, is_pending,
  release_all,
}
use turtle_chat.ProjectUsage.Keys.{Texts}
use turtle_chat.ProjectUsage.Requests.{
  begin_request, begin_new, begin_with, begin_for, reserve_for, refreshed, held_back, lacks,
  new_request,
}
use turtle_chat.ProjectUsage.Records.{is_recorded, Spent, item_of}
use turtle_chat.ProjectUsage.Trace.{Call, deletes, creates, records, step}
use turtle_chat.ProjectUsage.Trace.Prepaid.{
  Requests, Prepaid, outstanding, pending_amount, reserved_at, Covers, IsSolvent, Owns,
  put_row-Prepaid, row-exact, row-solvent, outstanding-released, released,
  outstanding-released_other, give_back-outstanding, released-AreOwned,
}

abbrev pub IsPrepaid : UsageStore → Type 0
IsPrepaid s = Prepaid s.keys s.permissions s.requests

-- A call that settles a request: it is open, and costs at most what it holds back. One that
-- settles none costs nothing.
abbrev pub Settles : UsageStore → Spent → Option ProjectRequest → Type 0
Settles s e none = (item_of s e).estimated_cost_microusd ≡ 0
Settles s e (some r) =
    (is_reserved r.state ≡ true) × ((item_of s e).estimated_cost_microusd ≤ r.reserved_microusd)

-- Calls in good order: new keys have new identifiers, no user is deleted with an open request,
-- and what is recorded first settles.
abbrev pub IsOrderly : UsageStore → Call → Type 0
IsOrderly s (creates owner name secret now) = get s.keys secret.key_id ≡ none
IsOrderly s (deletes user now) =
    any_of (is_pending user) (values (release_all s user now).requests) ≡ false
IsOrderly s (records e now) =
    first_of (is_recorded e.key_id e.request_id) s.usage ≡ none
    → Settles s e (get s.requests (e.key_id, e.request_id))
IsOrderly s call = Unit

module _ (texts : Texts) where
  abbrev pub AreOrderly : UsageStore → List Call → Type 0
  AreOrderly s [] = Unit
  AreOrderly s (call ∷ calls) = IsOrderly s call × AreOrderly (step texts s call) calls

-- Rows whose user, balance and reservations are as before, or that are new.
pub same_row-Prepaid :
    (s : UsageStore) (u : String) (row : Permission)
    → IsPrepaid s
    → row.reserved_microusd ≡ reserved_at (get s.permissions u)
    → Covers row.balance_microusd row.reserved_microusd
    → Prepaid s.keys (put s.permissions u row) s.requests
same_row-Prepaid s u row w e c =
    put_row-Prepaid w u row s.requests (e ∙ w.exact u) c (λ v n. refl) w.owned

pub set_permission-IsPrepaid :
    (s : UsageStore) (u : String) (enabled : Bool) (by : String) (m : Option ℤ) (now : ℕ)
    → IsPrepaid s
    → IsPrepaid (set_permission s u enabled by m now).0
unfolding set_permission
set_permission-IsPrepaid s u enabled by m now w =
    if_holds (λ (r : UsageStore × Reply Permission). IsPrepaid r.0)
      (u == "" || not (keys_in_range m)) (λ _. w)
      λ _.
        same_row-Prepaid s u _ w (held (get s.permissions u))
          (covered (get s.permissions u) (w.solvent u))
  where
    held : (o : Option Permission) → (permission_or_new u now o).reserved_microusd ≡ reserved_at o
    held none = refl
    held (some row) = refl

    covered :
        (o : Option Permission)
        → IsSolvent o
        → Covers
            (permission_or_new u now o).balance_microusd
            (permission_or_new u now o).reserved_microusd
    covered none c = refl
    covered (some row) c = c

plus-Covers :
    (o : Option ℤ) (n held : ℕ) → Covers o held → below (plus (balance_or_zero o) n) held ≡ false
plus-Covers none n held c = cc
plus-Covers (some (pos a)) n held c = ground (arith, c)
plus-Covers (some (negsuc a)) n held c = cc

grant_to-IsPrepaid :
    (s : UsageStore) (g : Grant) (now : ℕ) (row : Permission)
    → get s.permissions g.user_id ≡ some row
    → IsPrepaid s
    → IsPrepaid (grant_to s g now row).0
grant_to-IsPrepaid s g now row e w = same_row-Prepaid s g.user_id _ w (ap reserved_at (sym e)) (
    plus-Covers row.balance_microusd (size_of g.amount_microusd) row.reserved_microusd
      (row-solvent w g.user_id row e))

pub grant_credit-IsPrepaid :
    (s : UsageStore) (g : Grant) (now : ℕ) → IsPrepaid s → IsPrepaid (grant_credit s g now).0
unfolding grant_credit
grant_credit-IsPrepaid s g now w =
    if_holds (λ (r : UsageStore × Reply LedgerEntry). IsPrepaid r.0)
      (not (is_positive g.amount_microusd)) (λ _. w) λ _. found (get s.permissions g.user_id) refl
  where
    once :
        (row : Permission) (o : Option LedgerEntry)
        → get s.permissions g.user_id ≡ some row
        → IsPrepaid (grant_once s g now row o).0
    once row none e = grant_to-IsPrepaid s g now row e w
    once row (some existing) e =
        if_holds (λ (r : UsageStore × Reply LedgerEntry). IsPrepaid r.0)
          (same_amount existing.amount_microusd g.amount_microusd && existing.reason == g.reason)
          (λ _. w) (λ _. w)

    found :
        (o : Option Permission)
        → get s.permissions g.user_id ≡ o
        → IsPrepaid (grant_found s g now o).0
    found none e = w
    found (some row) e = once row (first_of (is_repeat g) s.credit_ledger) e

-- A new request, on what it holds back.
outstanding-new :
    (requests : Requests) (k i u v : String) (reserved ppm now : ℕ)
    → get requests (k, i) ≡ none
    → outstanding v (put requests (k, i) (new_request k i u reserved ppm now))
      ≡ outstanding v requests + (if u == v then reserved else 0)
unfolding outstanding
outstanding-new requests k i u v reserved ppm now f =
    let t = total-put (pending_amount v) requests (k, i) (new_request k i u reserved ppm now) in
    let n = ap (share (pending_amount v)) f in
    elim (Bool-cases (u == v)) [
      | inl y ↦ rw y (omega (arith, rw y at t, n))
      | inr m ↦ rw m (omega (arith, rw m at t, n))
    ]

lacks-Covers :
    (o : Option ℤ) (held more : ℕ)
    → Covers o held
    → lacks o held more ≡ false
    → Covers o (held + more)
lacks-Covers none held more c l = c
lacks-Covers (some (pos a)) held more c l = ground (arith, c, l)
lacks-Covers (some (negsuc a)) held more c l = ground (arith, c, l)

reserve_for-IsPrepaid :
    (s : UsageStore) (k i u : String) (row : Permission) (authorized now : ℕ)
    → get s.permissions u ≡ some row
    → get s.requests (k, i) ≡ none
    → Owns (get s.keys k) u
    → IsPrepaid s
    → IsPrepaid (reserve_for s k i u row authorized now).0
unfolding reserve_for
reserve_for-IsPrepaid s k i u row authorized now e f o w =
    let ppm = s.config.cost_multiplier_ppm in
    let n = actual_cost authorized ppm in
    if_holds (λ (r : UsageStore × Reply ProjectRequest). IsPrepaid r.0)
      (lacks row.balance_microusd row.reserved_microusd n) (λ _. w)
      λ l.
        put_row-Prepaid w u (record row { reserved_microusd = row.reserved_microusd + n })
          (put s.requests (k, i) (new_request k i u n ppm now))
          (let t = outstanding-new s.requests k i u u n ppm now f in
            omega (arith, row-exact w u row e, rw (==_refl u) at t))
          (lacks-Covers row.balance_microusd row.reserved_microusd n (row-solvent w u row e) l)
          (λ v m.
            let t = outstanding-new s.requests k i u v n ppm now f in omega (arith, rw m at t))
          (AllItems-put _ s.requests (k, i) (new_request k i u n ppm now) w.owned o)

pub get-put_self :
    (d : Dict String Permission) (u : String) (row : Permission) → get (put d u row) u ≡ some row
get-put_self d u row = rw (get-put d u u row) (rw (==_refl u) refl)

pub fewer-Covers : (o : Option ℤ) (held less : ℕ) → Covers o held → less ≤ held → Covers o less
fewer-Covers none held less c h = c
fewer-Covers (some (pos a)) held less c h = ground (arith, c)
fewer-Covers (some (negsuc a)) held less c h = c

refreshed-IsPrepaid :
    (s : UsageStore) (u : String) (row : Permission) (now : ℕ)
    → get s.permissions u ≡ some row
    → IsPrepaid s
    → IsPrepaid (refreshed s u row now)
refreshed-IsPrepaid s u row now e w =
    put_row-Prepaid w u (held_back s u row now) (released u now s.requests)
      (give_back-outstanding u now row.reserved_microusd s.requests (row-exact w u row e))
      (fewer-Covers row.balance_microusd row.reserved_microusd _ (row-solvent w u row e) (
        omega (
          arith,
          row-exact w u row e,
          give_back-outstanding u now row.reserved_microusd s.requests (row-exact w u row e),
          outstanding-released u now s.requests,
        )))
      (λ v n. outstanding-released_other u v now s.requests n)
      (released-AreOwned s.keys u now s.requests w.owned)

begin_for-IsPrepaid :
    (s : UsageStore) (k i : String) (key : ApiKey) (authorized now : ℕ) (o : Option Permission)
    → get s.permissions key.owner_user_id ≡ o
    → get s.requests (k, i) ≡ none
    → get s.keys k ≡ some key
    → IsPrepaid s
    → IsPrepaid (begin_for s k i key authorized now o).0
unfolding begin_for
begin_for-IsPrepaid s k i key authorized now none e f g w = w
begin_for-IsPrepaid s k i key authorized now (some row) e f g w =
    if_holds (λ (r : UsageStore × Reply ProjectRequest). IsPrepaid r.0) (not row.enabled) (λ _. w)
      λ _.
        reserve_for-IsPrepaid (refreshed s key.owner_user_id row now) k i key.owner_user_id
          (held_back s key.owner_user_id row now) authorized now
          (get-put_self s.permissions key.owner_user_id (held_back s key.owner_user_id row now))
          (get-rewrite-none _ s.requests (k, i) f)
          (subst (λ x. Owns x key.owner_user_id) (sym g) refl)
          (refreshed-IsPrepaid s key.owner_user_id row now e w)

pub begin_request-IsPrepaid :
    (s : UsageStore) (k i : String) (z : ℤ) (now : ℕ)
    → IsPrepaid s
    → IsPrepaid (begin_request s k i z now).0
unfolding begin_request
begin_request-IsPrepaid s k i z now w = fresh (get s.requests (k, i)) refl
  where
    known :
        (o : Option ApiKey)
        → get s.keys k ≡ o
        → get s.requests (k, i) ≡ none
        → IsPrepaid (begin_with s k i (at_least 0 z) now o).0
    known none g f = w
    known (some key) g f =
        begin_for-IsPrepaid s k i key (at_least 0 z) now (get s.permissions key.owner_user_id) refl
          f g w

    fresh :
        (o : Option ProjectRequest)
        → get s.requests (k, i) ≡ o
        → IsPrepaid (begin_new s k i (at_least 0 z) now o).0
    fresh (some used) f = w
    fresh none f = known (get s.keys k) refl f
