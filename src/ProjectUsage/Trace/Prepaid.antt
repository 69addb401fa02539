-- ===== src/ProjectUsage/Trace/Prepaid.antt =====
-- The credit that requests hold back, against the permissions
-- (src/chatgpt_web_gateway/project_usage.py).
use turtle_chat.Prelude.{
  ℕ, ◌+◌, ◌-◌, ◌≡◌, refl, sym, ap, ◌∙◌, String, true, false, Option, none, some, ◌==◌, string_eq,
  ==_eq, pair_eq, List, [], ◌∷◌, arith, if◌then◌else◌, select, sum_of, ℤ, below, Bool-cases, inl,
  inr,
}
use mathlib.Core.Path.{subst}
use turtle_chat.Dict.{Dict, get, put, sweep, values, total}
use turtle_chat.Dict.Laws.{get-put}
use turtle_chat.Dict.Items.{AllItems, AllItems-rewrite}
use turtle_chat.Dict.Keys.{AllItems-map}
use turtle_chat.Dict.Totals.{total-rewrite}
use turtle_chat.ProjectUsage.Types.{Permission, ApiKey, ProjectRequest}
use turtle_chat.ProjectUsage.Permissions.{is_due, release_due, is_pending}
use turtle_chat.ProjectUsage.Requests.{give_back}

abbrev pub Requests : Type 0
Requests = Dict (String × String) ProjectRequest

-- What a request holds back of a user's credit.
abbrev pub pending_amount : String → ProjectRequest → ℕ
pending_amount user r = if is_pending user r then r.reserved_microusd else 0

unfoldable pub outstanding : String → Requests → ℕ
outstanding user requests = total (pending_amount user) requests

abbrev pub reserved_at : Option Permission → ℕ
reserved_at none = 0
reserved_at (some row) = row.reserved_microusd

-- The balance is known, and not below what is held back.
abbrev pub Covers : Option ℤ → ℕ → Type 0
Covers none held = true ≡ false
Covers (some balance) held = below balance held ≡ false

abbrev pub IsSolvent : Option Permission → Type 0
IsSolvent none = Unit
IsSolvent (some row) = Covers row.balance_microusd row.reserved_microusd

abbrev pub Owns : Option ApiKey → String → Type 0
Owns none user = true ≡ false
Owns (some key) user = key.owner_user_id ≡ user

abbrev pub AreOwned : Dict String ApiKey → Requests → Type 0
AreOwned keys requests = AllItems (λ k r. Owns (get keys k.0) r.owner_user_id) requests

-- What a user has reserved is what the user's open requests hold back, no balance is below it,
-- and the key of a request is of the request's user.
pub record Prepaid (keys : Dict String ApiKey) (permissions : Dict String Permission)
    (requests : Requests) : Type 0 where
  pub exact : (user : String) → reserved_at (get permissions user) ≡ outstanding user requests
  pub solvent : (user : String) → IsSolvent (get permissions user)
  pub owned : AreOwned keys requests

module _ {keys : Dict String ApiKey} {permissions : Dict String Permission} {requests : Requests}
    (w : Prepaid keys permissions requests) where
  -- One user's row and requests change.
  pub put_row-Prepaid :
      (u : String) (row : Permission) (requests' : Requests)
      → row.reserved_microusd ≡ outstanding u requests'
      → Covers row.balance_microusd row.reserved_microusd
      → ((v : String) → (u == v) ≡ false → outstanding v requests' ≡ outstanding v requests)
      → AreOwned keys requests'
      → Prepaid keys (put permissions u row) requests'
  put_row-Prepaid u row requests' e c same o = record {
    exact = λ v. rw (get-put permissions u v row) (elim (Bool-cases (u == v)) [
      | inl y ↦ rw y (subst (λ x. row.reserved_microusd ≡ outstanding x requests') (==_eq u v y) e)
      | inr n ↦ rw n (w.exact v ∙ sym (same v n))
    ]);
    solvent = λ v.
        rw (get-put permissions u v row)
          (elim (Bool-cases (u == v)) [ inl y ↦ rw y c | inr n ↦ rw n (w.solvent v) ]);
    owned = o;
  }

  pub row-exact :
      (u : String) (row : Permission)
      → get permissions u ≡ some row
      → row.reserved_microusd ≡ outstanding u requests
  row-exact u row g = sym (ap reserved_at g) ∙ w.exact u

  pub row-solvent :
      (u : String) (row : Permission)
      → get permissions u ≡ some row
      → Covers row.balance_microusd row.reserved_microusd
  row-solvent u row g = subst IsSolvent g (w.solvent u)

  -- A key changes and keeps its owner, or is new.
  pub put_key-Prepaid :
      (id : String) (key : ApiKey)
      → ((old : ApiKey) → get keys id ≡ some old → key.owner_user_id ≡ old.owner_user_id)
      → Prepaid (put keys id key) permissions requests
  put_key-Prepaid id key h = record {
    exact = w.exact;
    solvent = w.solvent;
    owned = AllItems-map _ _ requests kept w.owned;
  }
    where
      still :
          (o : Option ApiKey) (user : String)
          → get keys id ≡ o
          → Owns o user
          → key.owner_user_id ≡ user
      still none user g p = cc
      still (some old) user g p = h old g ∙ p

      kept :
          (k : String × String) (r : ProjectRequest)
          → Owns (get keys k.0) r.owner_user_id
          → Owns (get (put keys id key) k.0) r.owner_user_id
      kept k r p = rw (get-put keys id k.0 key) (elim (Bool-cases (id == k.0)) [
        | inl y ↦ rw y (still (get keys k.0) r.owner_user_id (ap (get keys) (==_eq id k.0 y)) p)
        | inr n ↦ rw n p
      ])

-- The release of what is due.
abbrev pub due_amount : String → ℕ → ProjectRequest → ℕ
due_amount user now r = if is_due user now r then r.reserved_microusd else 0

abbrev pub released : String → ℕ → Requests → Requests
released user now requests = sweep (λ r. some (release_due user now r)) requests

release_due-other :
    (user other : String) (now : ℕ) (r : ProjectRequest)
    → (user == other) ≡ false
    → pending_amount other (release_due user now r) ≡ pending_amount other r
release_due-other user other now r n = ground (
  arith,
  string_eq.same_iff r.owner_user_id user,
  string_eq.same_iff r.owner_user_id other,
  string_eq.same_iff user other,
)

release_due-owner :
    (user : String) (now : ℕ) (r : ProjectRequest)
    → (release_due user now r).owner_user_id ≡ r.owner_user_id
release_due-owner user now r = ground arith

pub outstanding-released :
    (user : String) (now : ℕ) (requests : Requests)
    → outstanding user (released user now requests) + total (due_amount user now) requests
      ≡ outstanding user requests
unfolding outstanding
outstanding-released user now requests =
    total-rewrite (pending_amount user) (due_amount user now) (pending_amount user)
      (release_due user now) requests (λ r. ground arith)

pub outstanding-released_other :
    (user other : String) (now : ℕ) (requests : Requests)
    → (user == other) ≡ false
    → outstanding other (released user now requests) ≡ outstanding other requests
unfolding outstanding total sweep
outstanding-released_other user other now [] n = refl
outstanding-released_other user other now ((k, r) ∷ d) n =
    omega
      (arith, outstanding-released_other user other now d n, release_due-other user other now r n)

give_back-sum :
    (n : ℕ) (rs : List ProjectRequest) → give_back n rs ≡ n - sum_of (λ r. r.reserved_microusd) rs
unfolding give_back sum_of
give_back-sum n [] = omega arith
give_back-sum n (r ∷ rs) = omega (arith, give_back-sum (n - r.reserved_microusd) rs)

due-sum :
    (user : String) (now : ℕ) (requests : Requests)
    → sum_of (λ r. r.reserved_microusd) (select (is_due user now) (values requests))
      ≡ total (due_amount user now) requests
unfolding sum_of select values total
due-sum user now [] = refl
due-sum user now ((k, r) ∷ d) = elim (Bool-cases (is_due user now r)) [
  | inl y ↦ rw y (omega (arith, due-sum user now d))
  | inr n ↦ rw n (omega (arith, due-sum user now d))
]

-- The loop of `begin_request` over the expired requests takes from the row what they held.
pub give_back-outstanding :
    (user : String) (now n : ℕ) (requests : Requests)
    → n ≡ outstanding user requests
    → give_back n (select (is_due user now) (values requests))
      ≡ outstanding user (released user now requests)
give_back-outstanding user now n requests e = omega (
  arith,
  e,
  give_back-sum n (select (is_due user now) (values requests)),
  due-sum user now requests,
  outstanding-released user now requests,
)

pub released-AreOwned :
    (keys : Dict String ApiKey) (user : String) (now : ℕ) (requests : Requests)
    → AreOwned keys requests
    → AreOwned keys (released user now requests)
released-AreOwned keys user now requests o =
    AllItems-rewrite _ _ (release_due user now) requests
      (λ k r p. rw (release_due-owner user now r) p) o
