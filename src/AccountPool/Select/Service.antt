-- ===== src/AccountPool/Select/Service.antt =====
-- When `_choose_account` finds an account (src/chatgpt_web_gateway/account_pool.py).
use turtle_chat.Prelude.{
  ℕ, ◌≡◌, refl, sym, ◌∙◌, String, Bool, true, false, not, ◌&&◌, Option, none, some, ◌==◌, string_eq,
  ==_eq, List, [], ◌∷◌, leb, select, any_of, inl, inr, Bool-cases, if_holds, some_inj,
}
use mathlib.Core.Path.{subst}
use turtle_chat.Dict.Items.{any_of-select}
use turtle_chat.AccountPool.Choose.{Candidate}
use turtle_chat.AccountPool.Select.{
  capacity_of, is_ready, is_other, find_first, has_id, Plan, keep, refuse, among, plan, plan_for,
  bound_plan, overflow_plan, reserve_plan, choose_account, carry_out, best_of,
}

-- Some candidate is left.
abbrev IsInhabited : List Candidate → Type 0
IsInhabited xs = any_of (λ x. true) xs ≡ true

any_of-IsInhabited :
    (p : Candidate → Bool) (xs : List Candidate) → any_of p xs ≡ true → IsInhabited xs
unfolding any_of
any_of-IsInhabited p [] h = cc
any_of-IsInhabited p (x ∷ xs) h = refl

select-IsInhabited :
    (p : Candidate → Bool) (xs : List Candidate) → any_of p xs ≡ true → IsInhabited (select p xs)
unfolding any_of select
select-IsInhabited p [] h = cc
select-IsInhabited p (x ∷ xs) h = elim (Bool-cases (p x)) [
  | inl y ↦ rw y refl
  | inr n ↦ rw n (select-IsInhabited p xs (rw n at h))
]

find_first-holds :
    (p : Candidate → Bool) (xs : List Candidate) (x : Candidate)
    → find_first p xs ≡ some x
    → p x ≡ true
unfolding find_first
find_first-holds p [] x h = cc
find_first-holds p (y ∷ ys) x h = elim (Bool-cases (p y)) [
  | inl t ↦ subst (λ z. p z ≡ true) (some_inj (rw t at h)) t
  | inr f ↦ find_first-holds p ys x (rw f at h)
]

-- A plan that selects an account.
abbrev Serves : Plan → Type 0
Serves (keep x) = Unit
Serves refuse = true ≡ false
Serves (among xs r) = IsInhabited xs

overflow-Serves : (xs : List Candidate) → IsInhabited xs → Serves (overflow_plan xs)
unfolding any_of
overflow-Serves [] h = cc
overflow-Serves (x ∷ xs) h = h

reserve-Serves : (preferred : Candidate) (xs : List Candidate) → Serves (reserve_plan preferred xs)
unfolding any_of
reserve-Serves preferred [] = tt
reserve-Serves preferred (x ∷ xs) = refl

bound-Serves :
    (preferred : Candidate) (ready : List Candidate)
    → any_of (is_other preferred) ready ≡ true
    → Serves (bound_plan preferred ready)
bound-Serves preferred ready h =
    if_holds Serves preferred.selected_lane.is_available
      (λ y.
        if_holds Serves (leb (capacity_of preferred.account) preferred.active)
          (λ full. overflow-Serves _ (select-IsInhabited (is_other preferred) ready h))
          (λ room. reserve-Serves preferred _))
      (λ n. any_of-IsInhabited (is_other preferred) ready h)

others :
    (preferred_id : Option String) (x : Candidate) (ready : List Candidate)
    → has_id preferred_id x ≡ true
    → any_of (λ y. not (has_id preferred_id y)) ready ≡ true
    → any_of (is_other x) ready ≡ true
others none x ready f h = cc
others (some id) x ready f h =
    subst (λ i. any_of (λ y. not (y.account.id == i)) ready ≡ true) (sym (==_eq x.account.id id f))
      h

plan_for-Serves :
    (preferred_id : Option String) (o : Option Candidate) (ready : List Candidate)
    → ((x : Candidate) → o ≡ some x → has_id preferred_id x ≡ true)
    → any_of (λ y. not (has_id preferred_id y)) ready ≡ true
    → Serves (plan_for preferred_id o ready)
plan_for-Serves preferred_id none ready f h = any_of-IsInhabited _ ready h
plan_for-Serves preferred_id (some x) ready f h =
    if_holds Serves x.base_eligible
      (λ y. bound-Serves x ready (others preferred_id x ready (f x refl) h))
      (λ n. any_of-IsInhabited _ ready h)

module _ (tiebreak : String → Option String → String → ℕ) (pool_id : String)
    (chat_id : Option String) where
  carry_out-Serves :
      (p : Plan)
      → Serves p
      → (r : Candidate × Option String) × (carry_out tiebreak pool_id chat_id p ≡ some r)
  unfolding any_of
  carry_out-Serves (keep x) h = ((x, none), refl)
  carry_out-Serves refuse h = cc
  carry_out-Serves (among [] reason) h = cc
  carry_out-Serves (among (x ∷ xs) reason) h =
      ((best_of tiebreak pool_id chat_id x xs, reason), refl)

  -- If some candidate other than the one the chat is bound to is eligible, with a free place and an
  -- available lane, then an account is selected, whatever the state of the bound one.
  pub choose_account_serves :
      (preferred_id : Option String) (items : List Candidate)
      → any_of (λ x. is_ready x && not (has_id preferred_id x)) items ≡ true
      → (r : Candidate × Option String) × (choose_account tiebreak pool_id chat_id preferred_id
            items
          ≡ some r)
  unfolding choose_account plan
  choose_account_serves preferred_id items h = carry_out-Serves (plan preferred_id items) (
      plan_for-Serves preferred_id (find_first (has_id preferred_id) items) (select is_ready items)
        (λ x. find_first-holds (has_id preferred_id) items x)
        (any_of-select (λ y. not (has_id preferred_id y)) is_ready items ∙ h))
