-- ===== src/ProjectUsage/Repeats.antt =====
-- Calls that are made twice (src/chatgpt_web_gateway/project_usage.py).
use turtle_chat.Prelude.{
  ℕ, ◌≡◌, refl, sym, String, Bool, true, not, ◌&&◌, Option, none, some, ◌==◌, string_eq, ==_refl,
  pair_eq, List, [], ◌∷◌, ◌++◌, if◌then◌else◌, if_holds, eqb, ℤ, Bool-cases, inl, inr,
}
use mathlib.Core.Path.{subst}
use turtle_chat.Dict.{Dict, get, put}
use turtle_chat.Dict.Laws.{get-put}
use turtle_chat.ProjectUsage.Types.{
  Reply, raises, Failure, Permission, ApiKey, ProjectRequest, LedgerEntry, UsageEntry, UsageStore,
}
use turtle_chat.ProjectUsage.Permissions.{
  first_of, Grant, is_positive, is_repeat, grant_to, grant_once, grant_found, grant_credit,
  same_amount,
}
use turtle_chat.ProjectUsage.Records.{
  record_usage, record_found, record_once, record_new, is_recorded, charge_with, charge_balance,
  settle_request, Spent, item_of, log_usage,
}

first_of-last :
    {A : Type 0} (p : A → Bool) (xs : List A) (x : A)
    → p x ≡ true
    → (y : A) × (first_of p (xs ++ x ∷ []) ≡ some y)
unfolding first_of
first_of-last p [] x h = (x, rw h refl)
first_of-last p (z ∷ zs) x h = elim (Bool-cases (p z)) [
  | inl t ↦ (z, rw t refl)
  | inr f ↦ let later = first_of-last p zs x h in (later.0, rw f later.1)
]

get-put_self : {V : Type 0} (d : Dict String V) (k : String) (v : V) → get (put d k v) k ≡ some v
get-put_self d k v = rw (get-put d k k v) (rw (==_refl k) refl)

-- A grant that stands in the ledger, of a user who has a row.
abbrev IsGranted : Grant → UsageStore → Type 0
IsGranted g s =
    ((row : Permission) × (get s.permissions g.user_id ≡ some row))
    × ((e : LedgerEntry) × (first_of (is_repeat g) s.credit_ledger ≡ some e))

granted-same : (s : UsageStore) (g : Grant) (now : ℕ) → IsGranted g s → (grant_credit s g now).0 ≡ s
unfolding grant_credit
granted-same s g now ((row, p), (e, f)) =
    if_holds (λ (r : UsageStore × Reply LedgerEntry). r.0 ≡ s) (not (is_positive g.amount_microusd))
      (λ _. refl)
      λ _.
        subst (λ o. (grant_found s g now o).0 ≡ s) (sym p)
          (subst (λ o. (grant_once s g now row o).0 ≡ s) (sym f)
            (if_holds (λ (r : UsageStore × Reply LedgerEntry). r.0 ≡ s)
              (same_amount e.amount_microusd g.amount_microusd && e.reason == g.reason) (λ _. refl)
              (λ _. refl)))

-- Once a grant has been made, or refused, the same grant again changes nothing, whenever it comes.
pub grant_twice :
    (s : UsageStore) (g : Grant) (now now' : ℕ)
    → (grant_credit (grant_credit s g now).0 g now').0 ≡ (grant_credit s g now).0
unfolding grant_credit
grant_twice s g now now' = elim (Bool-cases (is_positive g.amount_microusd)) [
  | inl y ↦
      subst
        (λ b.
          (grant_credit
            (if not b
              then (s, raises Failure.key_conflict)
              else grant_found s g now (get s.permissions g.user_id)).0
            g now').0
          ≡ (if not b
              then (s, raises Failure.key_conflict)
              else grant_found s g now (get s.permissions g.user_id)).0)
        (sym y) (found (get s.permissions g.user_id) refl)
  | inr n ↦ rw n refl
]
  where
    once :
        (row : Permission) (o : Option LedgerEntry)
        → get s.permissions g.user_id ≡ some row
        → first_of (is_repeat g) s.credit_ledger ≡ o
        → (grant_credit (grant_once s g now row o).0 g now').0 ≡ (grant_once s g now row o).0
    once row none p f = granted-same (grant_to s g now row).0 g now' (
      (_, get-put_self s.permissions g.user_id _),
      first_of-last (is_repeat g) s.credit_ledger _
          (rw (==_refl g.user_id, ==_refl g.idempotency_key) refl),
    )
    once row (some e) p f =
        if_holds (λ (r : UsageStore × Reply LedgerEntry). (grant_credit r.0 g now').0 ≡ r.0)
          (same_amount e.amount_microusd g.amount_microusd && e.reason == g.reason)
          (λ _. granted-same s g now' ((row, p), (e, f)))
          (λ _. granted-same s g now' ((row, p), (e, f)))

    absent : get s.permissions g.user_id ≡ none → (grant_credit s g now').0 ≡ s
    absent p =
        if_holds (λ (r : UsageStore × Reply LedgerEntry). r.0 ≡ s)
          (not (is_positive g.amount_microusd)) (λ _. refl)
          λ _. subst (λ o. (grant_found s g now' o).0 ≡ s) (sym p) refl

    found :
        (o : Option Permission)
        → get s.permissions g.user_id ≡ o
        → (grant_credit (grant_found s g now o).0 g now').0 ≡ (grant_found s g now o).0
    found none p = absent p
    found (some row) p = once row (first_of (is_repeat g) s.credit_ledger) p refl

-- A finished call whose usage is recorded, or whose key is unknown.
abbrev IsKnown : Spent → UsageStore → Type 0
IsKnown e s = (i : UsageEntry) × (first_of (is_recorded e.key_id e.request_id) s.usage ≡ some i)

known-same : (s : UsageStore) (e : Spent) (now : ℕ) → IsKnown e s → (record_usage s e now).0 ≡ s
unfolding record_usage record_once
known-same s e now (i, f) = found (get s.keys e.key_id)
  where
    found : (o : Option ApiKey) → (record_found s e now o).0 ≡ s
    found none = refl
    found (some key) = subst (λ o. (record_once s key e now o).0 ≡ s) (sym f) refl

charge-usage :
    (s : UsageStore) (key : ApiKey) (e : Spent) (item : UsageEntry) (row : Permission)
    (o : Option ℤ)
    → (charge_balance s key e item row o).0.usage ≡ s.usage
charge-usage s key e item row none = refl
charge-usage s key e item row (some old) =
    if_holds (λ (r : UsageStore × Option ℤ). r.0.usage ≡ s.usage)
      (eqb item.estimated_cost_microusd 0) (λ _. refl) (λ _. refl)

charge_with-usage :
    (s : UsageStore) (key : ApiKey) (e : Spent) (item : UsageEntry) (now : ℕ)
    (q : Option ProjectRequest) (o : Option Permission)
    → (charge_with s key e item now q o).0.usage ≡ s.usage
unfolding settle_request
charge_with-usage s key e item now q none = refl
charge_with-usage s key e item now none (some row) =
    charge-usage s key e item row row.balance_microusd
charge_with-usage s key e item now (some r) (some row) =
    charge-usage (settle_request s key.owner_user_id (e.key_id, e.request_id) now (some r) row).0
      key e item (settle_request s key.owner_user_id (e.key_id, e.request_id) now (some r) row).1
      row.balance_microusd

-- Once a finished call has been recorded, or was refused for its unknown key, recording it again
-- changes nothing: its user is charged once.
pub record_twice :
    (s : UsageStore) (e : Spent) (now now' : ℕ)
    → (record_usage (record_usage s e now).0 e now').0 ≡ (record_usage s e now).0
unfolding record_usage record_once record_new
record_twice s e now now' = found (get s.keys e.key_id) refl
  where
    once :
        (key : ApiKey) (o : Option UsageEntry)
        → first_of (is_recorded e.key_id e.request_id) s.usage ≡ o
        → (record_usage (record_once s key e now o).0 e now').0 ≡ (record_once s key e now o).0
    once key (some i) f = known-same s e now' (i, f)
    once key none f = known-same (record_once s key e now none).0 e now' (
        subst (λ xs. (i : UsageEntry) × (first_of (is_recorded e.key_id e.request_id) xs ≡ some i))
          (sym (
            charge_with-usage (log_usage s key (item_of s e)) key e (item_of s e) now
              (get s.requests (e.key_id, e.request_id)) (get s.permissions key.owner_user_id)))
          (first_of-last (is_recorded e.key_id e.request_id) s.usage (item_of s e)
            (rw (==_refl e.key_id, ==_refl e.request_id) refl)))

    absent : get s.keys e.key_id ≡ none → (record_usage s e now').0 ≡ s
    absent g = subst (λ o. (record_found s e now' o).0 ≡ s) (sym g) refl

    found :
        (o : Option ApiKey)
        → get s.keys e.key_id ≡ o
        → (record_usage (record_found s e now o).0 e now').0 ≡ (record_found s e now o).0
    found none g = absent g
    found (some key) g = once key (first_of (is_recorded e.key_id e.request_id) s.usage) refl
