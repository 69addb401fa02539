-- ===== src/AccountPool/Select/Choices.antt =====
-- What `choose_account` returns.
use turtle_chat.Prelude.{
  ℕ, ◌<◌, ◌≡◌, refl, ◌∙◌, String, Bool, true, false, Option, none, some, string_eq, List, [], ◌∷◌,
  arith, leb, select, inl, inr, Bool-cases, some_inj, if_holds, if_true, if_false, ap,
}
use mathlib.Core.Path.{subst}
use turtle_chat.AccountPool.Choose.{Candidate, least_of, Part, rank_lt}
use turtle_chat.AccountPool.Select.{
  capacity_of, is_ready, is_reserve, is_other, find_first, has_id, Plan, keep, refuse, among, plan,
  plan_for, bound_plan, overflow_plan, reserve_plan, is_healthier, choose_account, carry_out,
  best_of, rank, ranking,
}

abbrev pub All {ℓ κ} : {A : Type ℓ} → (A → Type κ) → List A → Type κ
All P [] = Unit
All P (x ∷ xs) = P x × All P xs

module _ {A : Type 0} (P : A → Type 0) where
  pub select-All : (p : A → Bool) (xs : List A) → All P xs → All P (select p xs)
  unfolding select
  select-All p [] a = tt
  select-All p (x ∷ xs) a = elim (Bool-cases (p x)) [
    | inl y ↦ rw y (a.0, select-All p xs a.1)
    | inr n ↦ rw n (select-All p xs a.1)
  ]

  least_of-All :
      (r : A → List Part) (best : A) (xs : List A) → P best → All P xs → P (least_of r best xs)
  unfolding least_of
  least_of-All r best [] h a = h
  least_of-All r best (x ∷ xs) h a = elim (Bool-cases (rank_lt (r x) (r best))) [
    | inl y ↦ rw y (least_of-All r x xs a.0 a.1)
    | inr n ↦ rw n (least_of-All r best xs h a.1)
  ]

  find_first-All : (p : A → Bool) (xs : List A) (x : A) → All P xs → find_first p xs ≡ some x → P x
  unfolding find_first
  find_first-All p [] x a h = cc
  find_first-All p (y ∷ ys) x a h = elim (Bool-cases (p y)) [
    | inl t ↦ subst P (some_inj (rw t at h)) a.0
    | inr f ↦ find_first-All p ys x a.1 (rw f at h)
  ]

-- What a plan leaves open is a set of ready candidates with the property.
abbrev Allows : (Candidate → Type 0) → Plan → Type 0
Allows P (keep x) = P x × (is_ready x ≡ true)
Allows P refuse = Unit
Allows P (among xs r) = All (λ x. P x × (is_ready x ≡ true)) xs

select-holds :
    {A : Type 0} (P : A → Type 0) (p : A → Bool) (xs : List A)
    → All P xs
    → All (λ x. P x × (p x ≡ true)) (select p xs)
unfolding select
select-holds P p [] a = tt
select-holds P p (x ∷ xs) a = elim (Bool-cases (p x)) [
  | inl y ↦ rw y ((a.0, y), select-holds P p xs a.1)
  | inr n ↦ rw n (select-holds P p xs a.1)
]

module _ (P : Candidate → Type 0) where
  abbrev Ready : Candidate → Type 0
  Ready x = P x × (is_ready x ≡ true)

  overflow-Allows : (xs : List Candidate) → All Ready xs → Allows P (overflow_plan xs)
  overflow-Allows [] a = tt
  overflow-Allows (x ∷ xs) a = a

  reserve-Allows :
      (preferred : Candidate) (xs : List Candidate)
      → Ready preferred
      → All Ready xs
      → Allows P (reserve_plan preferred xs)
  reserve-Allows preferred [] r a = r
  reserve-Allows preferred (x ∷ xs) r a = a

  bound-Allows :
      (preferred : Candidate) (ready : List Candidate)
      → P preferred
      → preferred.base_eligible ≡ true
      → All Ready ready
      → Allows P (bound_plan preferred ready)
  bound-Allows preferred ready h b a =
      if_holds (Allows P) preferred.selected_lane.is_available
        (λ y.
          if_holds (Allows P) (leb (capacity_of preferred.account) preferred.active)
            (λ full. overflow-Allows _ (select-All Ready (is_other preferred) ready a))
            (λ room.
              reserve-Allows preferred _ (h, ground arith)
                (select-All Ready (is_healthier preferred) ready a)))
        (λ n. a)

  plan_for-Allows :
      (preferred_id : Option String) (o : Option Candidate) (ready : List Candidate)
      → ((x : Candidate) → o ≡ some x → P x)
      → All Ready ready
      → Allows P (plan_for preferred_id o ready)
  plan_for-Allows preferred_id none ready h a = a
  plan_for-Allows preferred_id (some preferred) ready h a =
      if_holds (Allows P) preferred.base_eligible
        (λ y. bound-Allows preferred ready (h preferred refl) y a) (λ n. a)

  plan-Allows :
      (preferred_id : Option String) (items : List Candidate)
      → All P items
      → Allows P (plan preferred_id items)
  unfolding plan
  plan-Allows preferred_id items a =
      plan_for-Allows preferred_id (find_first (has_id preferred_id) items) (select is_ready items)
        (λ x. find_first-All P (has_id preferred_id) items x a) (select-holds P is_ready items a)

module _ (tiebreak : String → Option String → String → ℕ) (pool_id : String)
    (chat_id : Option String) (P : Candidate → Type 0) where
  carry_out-Ready :
      (p : Plan) (x : Candidate) (reason : Option String)
      → Allows P p
      → carry_out tiebreak pool_id chat_id p ≡ some (x, reason)
      → P x × (is_ready x ≡ true)
  carry_out-Ready (keep y) x reason a h =
      subst (Ready P) (ap (λ (q : Candidate × Option String). q.0) (some_inj h)) a
  carry_out-Ready refuse x reason a h = cc
  carry_out-Ready (among [] r) x reason a h = cc
  carry_out-Ready (among (y ∷ ys) r) x reason a h =
      subst (Ready P) (ap (λ (q : Candidate × Option String). q.0) (some_inj h)) (
        unfold best_of in
        least_of-All (Ready P) (rank tiebreak pool_id chat_id (ranking y ys)) y ys a.0 a.1)

  -- The account that `_choose_account` selects is one of the candidates (it has every property
  -- that they all have), it is eligible, its lane is available, and it has a free place.
  pub choose_account-Ready :
      (preferred_id : Option String) (items : List Candidate) (x : Candidate)
      (reason : Option String)
      → All P items
      → choose_account tiebreak pool_id chat_id preferred_id items ≡ some (x, reason)
      → P x
        × (x.base_eligible ≡ true)
        × (x.active < capacity_of x.account)
        × (x.selected_lane.is_available ≡ true)
  unfolding choose_account
  choose_account-Ready preferred_id items x reason a h =
      let r =
        carry_out-Ready (plan preferred_id items) x reason (plan-Allows P preferred_id items a) h in
      (r.0, ground (arith, r.1), ground (arith, r.1), ground (arith, r.1))

select-none : {A : Type 0} (p : A → Bool) (xs : List A) → ((x : A) → p x ≡ false) → select p xs ≡ []
unfolding select
select-none p [] h = refl
select-none p (x ∷ xs) h = ground (arith, h x, select-none p xs h)

-- A chat stays with its account: if the first candidate that it is bound to is eligible, has a
-- free place and an available lane that is not down to its reserve, that account is selected and
-- no migration is reported, whatever the other candidates are.
pub choose_account_sticky :
    (tiebreak : String → Option String → String → ℕ) (pool_id : String) (chat_id : Option String)
    (preferred_id : Option String) (items : List Candidate) (x : Candidate)
    → find_first (has_id preferred_id) items ≡ some x
    → x.base_eligible ≡ true
    → x.active < capacity_of x.account
    → x.selected_lane.is_available ≡ true
    → is_reserve x.selected_lane.state ≡ false
    → choose_account tiebreak pool_id chat_id preferred_id items ≡ some (x, none)
unfolding choose_account plan
choose_account_sticky tiebreak pool_id chat_id preferred_id items x f b room av res =
    ap (λ o. carry_out tiebreak pool_id chat_id (plan_for preferred_id o (select is_ready items))) f
    ∙ ap (carry_out tiebreak pool_id chat_id) (
        if_true x.base_eligible _ _ b
        ∙ if_true x.selected_lane.is_available _ _ av
        ∙ if_false (leb (capacity_of x.account) x.active) _ _ (ground arith)
        ∙ ap (reserve_plan x)
            (select-none (is_healthier x) (select is_ready items) (λ y. ground arith)))
