-- ===== src/AccountPool/Acquire/Candidates.antt =====
-- What is true of every candidate that `acquire` collects.
use turtle_chat.Prelude.{
  ℕ, ◌≡◌, refl, sym, ◌∙◌, String, Option, none, some, ◌==◌, string_eq, ==_eq, List, [], ◌∷◌, arith,
  inl, inr, Bool-cases, some_inj, ap, if_true, if_false,
}
use mathlib.Core.Path.{subst}
use turtle_chat.Dict.{Dict, get, put, values}
use turtle_chat.Dict.Items.{AllItems, AllItems-rewrite, AllItems-put}
use turtle_chat.Dict.Keys.{Distinct, Distinct-put, Distinct-rewrite, items-get}
use turtle_chat.Quota.Lane.{Lane}
use turtle_chat.Quota.Lookup.{Provider}
use turtle_chat.AccountPool.Types.{Account, AccountStore}
use turtle_chat.AccountPool.Choose.{Candidate}
use turtle_chat.AccountPool.Select.{capacity_of}
use turtle_chat.AccountPool.Select.Choices.{All}
use turtle_chat.AccountPool.Store.{
  AcquireArgs, candidates, candidate_at, base_eligible, active_on, cons_both, expire,
  expire_account,
}

-- No identifier is stored twice, and every account stands under its own.
abbrev pub IsKeyed : Dict String Account → Type 0
IsKeyed d = Distinct d × AllItems (λ k v. v.id ≡ k) d

pub record IsDrawn (s : AccountStore) (a : AcquireArgs) (now : ℕ) (x : Candidate) : Type 0 where
  pub source : Account
  pub found : get s.accounts x.account.id ≡ some source
  pub keyed : source.id ≡ x.account.id
  pub pooled : source.pool_id ≡ a.pool_id
  pub same_capacity : capacity_of x.account ≡ capacity_of source
  pub load : x.active ≡ active_on x.account.id s.leases
  pub eligibility : x.base_eligible ≡ base_eligible a now source

abbrev Found : AccountStore → List Account → Type 0
Found s accounts = All (λ v. get s.accounts v.id ≡ some v) accounts

items-Found :
    (s : AccountStore) (d : Dict String Account)
    → AllItems (λ k v. (v.id ≡ k) × (get s.accounts k ≡ some v)) d
    → Found s (values d)
unfolding values
items-Found s [] a = tt
items-Found s ((k, v) ∷ d) a = (ap (get s.accounts) a.0.0 ∙ a.0.1, items-Found s d a.1)

pub values-Found : (s : AccountStore) → IsKeyed s.accounts → Found s (values s.accounts)
values-Found s k = items-Found s s.accounts (items-get _ s.accounts k.0 k.1)

cons_both-eq_some :
    (o : Option Candidate) (r : Option (List Candidate)) (items : List Candidate)
    → cons_both o r ≡ some items
    → (x : Candidate) × (xs : List Candidate) × (o ≡ some x) × (r ≡ some xs) × (items ≡ x ∷ xs)
cons_both-eq_some none r items h = cc
cons_both-eq_some (some x) none items h = cc
cons_both-eq_some (some x) (some xs) items h = (x, xs, refl, refl, sym (some_inj h))

module _ (s : AccountStore) (a : AcquireArgs) (now : ℕ) (provider : Provider) where
  candidate_at-IsDrawn :
      (account : Account) (o : Option Lane) (x : Candidate)
      → get s.accounts account.id ≡ some account
      → account.pool_id ≡ a.pool_id
      → candidate_at s a now provider account o ≡ some x
      → IsDrawn s a now x
  unfolding candidate_at
  candidate_at-IsDrawn account none x f p h = cc
  candidate_at-IsDrawn account (some lane) x f p h = subst (IsDrawn s a now) (some_inj h) (record {
    source = account;
    found = f;
    keyed = refl;
    pooled = p;
    same_capacity = refl;
    load = refl;
    eligibility = refl;
  })

  pub candidates-IsDrawn :
      (accounts : List Account) (items : List Candidate)
      → Found s accounts
      → candidates s a now provider accounts ≡ some items
      → All (IsDrawn s a now) items
  unfolding candidates
  candidates-IsDrawn [] items f h = subst (All (IsDrawn s a now)) (some_inj h) tt
  candidates-IsDrawn (account ∷ rest) items f h = elim (Bool-cases (account.pool_id == a.pool_id)) [
    | inl y ↦
        let (x, xs, p, q, r) = cons_both-eq_some _ _ items (sym (if_true _ _ _ y) ∙ h) in
        subst (All (IsDrawn s a now)) (sym r) (
          candidate_at-IsDrawn account _ x f.0 (==_eq account.pool_id a.pool_id y) p,
          candidates-IsDrawn rest xs f.1 q,
        )
    | inr n ↦ candidates-IsDrawn rest items f.1 (sym (if_false _ _ _ n) ∙ h)
  ]

-- The expiry rewrites accounts in place.
expire_account-id : (now : ℕ) (v : Account) → (expire_account now v).id ≡ v.id
unfolding expire_account
expire_account-id now v = ground arith

pub expire-IsKeyed :
    (s : AccountStore) (now : ℕ) → IsKeyed s.accounts → IsKeyed (expire s now).accounts
unfolding expire
expire-IsKeyed s now k = (
  Distinct-rewrite (expire_account now) s.accounts k.0,
  AllItems-rewrite _ _ (expire_account now) s.accounts (λ id v h. expire_account-id now v ∙ h) k.1,
)

pub put-IsKeyed :
    (d : Dict String Account) (k : String) (v : Account)
    → v.id ≡ k
    → IsKeyed d
    → IsKeyed (put d k v)
put-IsKeyed d k v h a = (Distinct-put d k v a.0, AllItems-put _ d k v a.1 h)
