-- ===== src/ChatQuota/Chains.antt =====
-- Chains of fallbacks (branding/open-webui/turtle_chat/store.py).
use turtle_chat.Prelude.{
  ℕ, zero, suc, ◌+◌, ◌≤◌, ◌≡◌, ◌≢◌, refl, sym, String, true, false, not, Option, none, some, ◌==◌,
  string_eq, ==_eq, ==_refl, List, [], ◌∷◌, arith, if_holds, length, to_nat, Bool-cases,
  Option-cases, inl, inr,
}
use mathlib.Core.Path.{subst}
use turtle_chat.Dict.{Dict, get}
use turtle_chat.ChatQuota.Rules.{
  Rule, is_known, selection_by_key, has, visit, visit_rule, visit_next, Verdict, passes, loops,
  crashes, unfinished as visit_unfinished,
}
use turtle_chat.ChatQuota.Usage.{Tables, Status, cleanup_stale, model_statuses}
use turtle_chat.ChatQuota.Reserve.{
  Order, Walk, finds, exhausted, cycles, missing, unfinished, conclude, reserve, reserve_in,
  endless, Outcome, in_model, walk, walk_status, fall_back, try_lane, is_allowed, earliest,
  add_reset,
}

-- The keys of a dictionary that a chain has not been at.
module _ {V : Type 0} where
  unfoldable unseen : List String → Dict String V → ℕ
  unseen seen [] = 0
  unseen seen ((k, v) ∷ d) = to_nat (not (has k seen)) + unseen seen d

  unseen_none : (d : Dict String V) → unseen [] d ≡ length d
  unfolding unseen
  unseen_none [] = refl
  unseen_none ((k, v) ∷ d) = omega (arith, unseen_none d)

  unseen_more :
      (seen : List String) (j : String) (d : Dict String V) → unseen (j ∷ seen) d ≤ unseen seen d
  unfolding unseen
  unseen_more seen j [] = omega arith
  unseen_more seen j ((k, v) ∷ d) = ground (arith, unseen_more seen j d)

  -- A key of the dictionary that is new to the chain is one less.
  unseen_fewer :
      (seen : List String) (j : String) (d : Dict String V) (v : V)
      → get d j ≡ some v
      → has j seen ≡ false
      → unseen (j ∷ seen) d + 1 ≤ unseen seen d
  unfolding unseen get
  unseen_fewer seen j [] v g n = cc
  unseen_fewer seen j ((k, w) ∷ d) v g n = elim (Bool-cases (k == j)) [
    | inl y ↦
        let fresh = subst (λ i. has i seen ≡ false) (sym (==_eq k j y)) n in
        let same = subst (λ i. (j == i) ≡ true) (sym (==_eq k j y)) (==_refl j) in
        rw (fresh, same) (omega (arith, unseen_more seen j d))
    | inr b ↦
        let later = unseen_fewer seen j d v (rw b at g) n in
        ground (arith, later, unseen_more seen j d)
  ]

-- A round of the loop ends well if its next round does, for the fallback that it goes on to.
module _ (o : Order) (statuses : Dict String Status) (P : Walk → Type 0) where
  pub walk_status-ends :
      (t : Tables) (resets : List ℕ) (key : String) (s : Option Status)
      (next : Tables → List ℕ → String → Walk)
      → ((status : Status)
          → s ≡ some status
          → (try_lane o statuses t key status).available ≡ true
          → P (finds key (try_lane o statuses t key status)))
      → ((reset_at : Option ℕ) → P (exhausted reset_at))
      → (s ≡ none → P missing)
      → ((status : Status) (fallback : String) (t' : Tables) (resets' : List ℕ)
          → s ≡ some status
          → status.fallback_key ≡ some fallback
          → is_allowed (get statuses fallback) ≡ true
          → P (next t' resets' fallback))
      → P (walk_status o statuses t resets key s next)
  walk_status-ends t resets key none next a b c h = c refl
  walk_status-ends t resets key (some status) next a b c h =
      if_holds P (try_lane o statuses t key status).available (λ y. a status refl y)
        (λ _.
          fell (try_lane o statuses t key status).tables
            (add_reset (try_lane o statuses t key status).reset_at resets) status.fallback_key refl)
    where
      fell :
          (t' : Tables) (resets' : List ℕ) (f : Option String)
          → status.fallback_key ≡ f
          → P (fall_back o statuses resets' f (next t' resets'))
      fell t' resets' none e = b (earliest resets')
      fell t' resets' (some fallback) e =
          if_holds P (is_allowed (get statuses fallback))
            (λ y. h status fallback t' resets' refl e y) (λ _. b (earliest resets'))

module _ (o : Order) (statuses : Dict String Status) where
  walk-finishes :
      (fuel : ℕ) (t : Tables) (visited : List String) (resets : List ℕ) (key : String)
      → unseen visited statuses + 1 ≤ fuel
      → walk o statuses fuel t visited resets key ≢ unfinished
  unfolding walk
  walk-finishes zero t visited resets key h = omega (arith, h)
  walk-finishes (suc fuel) t visited resets key h = elim (Bool-cases (has key visited)) [
    | inl y ↦ rw y (λ e. cc)
    | inr n ↦ rw n (
        walk_status-ends o statuses (λ w. w ≢ unfinished) t resets key (get statuses key)
          (λ t' resets' fallback. walk o statuses fuel t' (key ∷ visited) resets' fallback)
          (λ status g y e. cc) (λ reset_at e. cc) (λ g e. cc)
          (λ status fallback t' resets' g e y.
            walk-finishes fuel t' (key ∷ visited) resets' fallback
              (omega (arith, h, unseen_fewer visited key statuses status g n))))
  ]

module _ (P : Verdict → Type 0) where
  visit_rule-ends :
      (path : List String) (r : Option Rule) (next : String → Verdict)
      → P passes
      → P loops
      → P crashes
      → ((rule : Rule) (fallback : String)
          → r ≡ some rule
          → rule.fallback_key ≡ some fallback
          → has fallback path ≡ false
          → P (next fallback))
      → P (visit_rule path r next)
  visit_rule-ends path none next a b c h = c
  visit_rule-ends path (some rule) next a b c h = went rule.fallback_key refl
    where
      went : (f : Option String) → rule.fallback_key ≡ f → P (visit_next path f next)
      went none e = a
      went (some fallback) e =
          if_holds P (has fallback path) (λ _. b) (λ n. h rule fallback refl e n)

module _ (rules : Dict String Rule) where
  visit-absent :
      (fuel : ℕ) (key : String) (path : List String)
      → 1 ≤ fuel
      → get rules key ≡ none
      → visit rules fuel key path ≢ visit_unfinished
  unfolding visit
  visit-absent zero key path h g = omega (arith, h)
  visit-absent (suc fuel) key path h g = rw g (λ e. cc)

  visit-finishes :
      (fuel : ℕ) (key : String) (path : List String)
      → unseen path rules + 2 ≤ fuel
      → visit rules fuel key path ≢ visit_unfinished
  unfolding visit
  visit-finishes zero key path h = omega (arith, h)
  visit-finishes (suc fuel) key path h =
      visit_rule-ends (λ v. v ≢ visit_unfinished) path (get rules key)
        (λ f. visit rules fuel f (f ∷ path)) (λ e. cc) (λ e. cc) (λ e. cc)
        (λ rule fallback g e n. elim (Option-cases (get rules fallback)) [
          | inl absent ↦ visit-absent fuel fallback (fallback ∷ path) (omega (arith, h)) absent
          | inr (later, present) ↦
              visit-finishes fuel fallback (fallback ∷ path)
                (omega (arith, h, unseen_fewer path fallback rules later present n))
        ])

-- The loop over the fallbacks and the check of a group's rules always come to an end: neither
-- runs out of its fuel, whatever the rules are.
pub reserve-finishes :
    (t : Tables) (rules : Dict String Rule) (o : Order) (key : String)
    → ((reserve t rules o).1 ≢ endless)
      × (visit rules (length rules + 2) key (key ∷ []) ≢ visit_unfinished)
unfolding reserve
reserve-finishes t rules o key = (
  if_holds (λ (r : Tables × Outcome). r.1 ≢ endless) (not (is_known o.requested_key)) (λ _ e. cc)
      (λ _.
        if_holds (λ (r : Tables × Outcome). r.1 ≢ endless)
          (not (in_model o.model_id (selection_by_key o.requested_key))) (λ _ e. cc)
          (λ _. within (model_statuses (cleanup_stale t o.user_id o.now) o.user_id o.now rules))),
  visit-finishes rules (length rules + 2) key (key ∷ [])
      (omega (arith, unseen_none rules, unseen_more [] key rules)),
)
  where
    concluded : (w : Walk) → w ≢ unfinished → (conclude t o w).1 ≢ endless
    concluded (finds found tried) n = λ e. cc
    concluded (exhausted reset_at) n = λ e. cc
    concluded cycles n = λ e. cc
    concluded missing n = λ e. cc
    concluded unfinished n = λ e. n refl

    within : (r : Tables × Dict String Status) → (reserve_in t o r).1 ≢ endless
    within (t', statuses) =
        if_holds (λ (r : Tables × Outcome). r.1 ≢ endless)
          (is_allowed (get statuses o.requested_key))
          (λ _. concluded (walk o statuses (length statuses + 1) t' [] [] o.requested_key) (
            walk-finishes o statuses (length statuses + 1) t' [] [] o.requested_key
              (omega (arith, unseen_none statuses))))
          (λ _ e. cc)
