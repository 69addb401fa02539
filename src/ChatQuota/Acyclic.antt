-- ===== src/ChatQuota/Acyclic.antt =====
-- Rules that the check of a group accepts, in the loop of `reserve`
-- (branding/open-webui/turtle_chat/store.py).
use turtle_chat.Prelude.{
  ℕ, zero, suc, ◌+◌, ◌≡◌, ◌≢◌, refl, sym, ap, ◌∙◌, String, Bool, true, false, not, ◌&&◌, ◌||◌,
  Option, none, some, ◌==◌, string_eq, ==_eq, List, [], ◌∷◌, if_holds, length, Bool-cases, inl, inr,
  some_inj, &&-true, any_of,
}
use mathlib.Core.Path.{subst}
use turtle_chat.Dict.{Dict, get, values}
use turtle_chat.ChatQuota.Rules.{
  Rule, RuleForm, has, is_known, selection_by_key, visit, visit_rule, visit_next, Verdict, passes,
  passed, loops, crashes, unfinished as visit_unfinished, chains_end, checked, complete,
  complete_checked, normalize_group_rules, keys_of_family, selections, supply, falls_back_open,
}
use turtle_chat.ChatQuota.Usage.{Tables, Status, cleanup_stale, model_statuses}
use turtle_chat.ChatQuota.Reserve.{
  Order, Walk, finds, exhausted, cycles, missing, unfinished, walk, is_allowed, conclude, reserve,
  reserve_in, Outcome, looped, in_model,
}
use turtle_chat.ChatQuota.Chains.{walk_status-ends}
use turtle_chat.ChatQuota.Statuses.{Follows, model_statuses-Follows}

-- One step of a check that passes.
visit_next-passes :
    (path : List String) (fallback : String) (next : String → Verdict)
    → visit_next path (some fallback) next ≡ passes
    → (has fallback path ≡ false) × (next fallback ≡ passes)
visit_next-passes path fallback next h = elim (Bool-cases (has fallback path)) [
  | inl y ↦ cc (ap passed (rw y at h))
  | inr n ↦ (n, rw n at h)
]

abbrev Agree : Dict String Status → Dict String Rule → Type 0
Agree statuses rules =
    (key : String) (status : Status)
    → get statuses key ≡ some status
    → (rule : Rule) × (get rules key ≡ some rule) × Follows status rule

module _ (o : Order) (statuses : Dict String Status) (rules : Dict String Rule)
    (agree : Agree statuses rules) where
  walk-acyclic :
      (n fuel : ℕ) (t : Tables) (visited : List String) (resets : List ℕ) (key : String)
      → has key visited ≡ false
      → visit rules n key (key ∷ visited) ≡ passes
      → walk o statuses fuel t visited resets key ≢ cycles
  unfolding walk visit
  walk-acyclic zero fuel t visited resets key a v = cc
  walk-acyclic (suc n) zero t visited resets key a v = λ e. cc
  walk-acyclic (suc n) (suc fuel) t visited resets key a v = rw a (
      walk_status-ends o statuses (λ w. w ≢ cycles) t resets key (get statuses key)
        (λ t' resets' fallback. walk o statuses fuel t' (key ∷ visited) resets' fallback)
        (λ status g y e. cc) (λ reset_at e. cc) (λ g e. cc)
        (λ status fallback t' resets' g e y.
          let r = agree key status g in
          let f =
            visit_next-passes (key ∷ visited) fallback (λ j. visit rules n j (j ∷ key ∷ visited))
              (subst
                (λ j.
                  visit_next (key ∷ visited) j (λ j. visit rules n j (j ∷ key ∷ visited)) ≡ passes)
                (sym r.2.2 ∙ e)
                (subst
                  (λ q.
                    visit_rule (key ∷ visited) q (λ j. visit rules n j (j ∷ key ∷ visited))
                    ≡ passes)
                  r.1 v)) in
          walk-acyclic n fuel t' (key ∷ visited) resets' fallback f.0 f.1))

passed-passes : (v : Verdict) → passed v ≡ true → v ≡ passes
passed-passes passes h = refl
passed-passes loops h = cc
passed-passes crashes h = cc
passed-passes visit_unfinished h = cc

chains_end-passes :
    (rules d : Dict String Rule) (key : String) (rule : Rule)
    → chains_end rules d ≡ true
    → get d key ≡ some rule
    → rule.enabled ≡ true
    → visit rules (length rules + 2) key (key ∷ []) ≡ passes
unfolding get
chains_end-passes rules [] key rule c g h = cc
chains_end-passes rules ((k, first) ∷ d) key rule c g h =
    let both =
      &&-true (not first.enabled || passed (visit rules (length rules + 2) k (k ∷ [])))
        (chains_end rules d) c in
    elim (Bool-cases (k == key)) [
      | inl y ↦
          let opened = ap (λ (r : Rule). r.enabled) (some_inj (rw y at g)) ∙ h in
          let p = rw opened at both.0 in
          subst (λ j. visit rules (length rules + 2) j (j ∷ []) ≡ passes) (==_eq k key y)
            (passed-passes _ p)
      | inr n ↦ chains_end-passes rules d key rule both.1 (rw n at g) h
    ]

accepted-chains_end :
    (family : Option String) (allow_empty : Bool) (forms : List RuleForm) (rules : Dict String Rule)
    → normalize_group_rules family allow_empty forms ≡ some rules
    → chains_end rules rules ≡ true
unfolding normalize_group_rules
accepted-chains_end family allow_empty forms rules h =
    completed (supply (keys_of_family family selections) forms []) h
  where
    tested :
        (d : Dict String Rule) → checked allow_empty d ≡ some rules → chains_end rules rules ≡ true
    tested d e =
        elim (Bool-cases (
          ((allow_empty || any_of (λ (rule : Rule). rule.enabled) (values d))
            && not (any_of (λ rule. not (falls_back_open d rule)) (values d)))
          && chains_end d d)) [
            | inl y ↦
                subst (λ r. chains_end r r ≡ true) (some_inj (rw y at e))
                  (&&-true _ (chains_end d d) y).1
            | inr n ↦ cc (rw n at e)
          ]

    completed :
        (s : Option (Dict String Rule))
        → complete_checked allow_empty (keys_of_family family selections) s ≡ some rules
        → chains_end rules rules ≡ true
    completed none e = cc
    completed (some supplied) e = tested (complete (keys_of_family family selections) supplied) e

-- Under rules that the check of a group accepts, the loop over the fallbacks never raises that
-- they form a cycle.
pub reserve-acyclic :
    (family : Option String) (allow_empty : Bool) (forms : List RuleForm) (rules : Dict String Rule)
    (t : Tables) (o : Order)
    → normalize_group_rules family allow_empty forms ≡ some rules
    → (reserve t rules o).1 ≢ looped
unfolding reserve
reserve-acyclic family allow_empty forms rules t o h =
    if_holds (λ (r : Tables × Outcome). r.1 ≢ looped) (not (is_known o.requested_key)) (λ _ e. cc)
      (λ _.
        if_holds (λ (r : Tables × Outcome). r.1 ≢ looped)
          (not (in_model o.model_id (selection_by_key o.requested_key))) (λ _ e. cc)
          (λ _.
            within (model_statuses start o.user_id o.now rules).0
              (model_statuses start o.user_id o.now rules).1
              (model_statuses-Follows start o.user_id o.now rules)))
  where
    start : Tables
    start = cleanup_stale t o.user_id o.now

    concluded : (w : Walk) → w ≢ cycles → (conclude t o w).1 ≢ looped
    concluded (finds found tried) n = λ e. cc
    concluded (exhausted reset_at) n = λ e. cc
    concluded cycles n = λ e. n refl
    concluded missing n = λ e. cc
    concluded unfinished n = λ e. cc

    within :
        (t' : Tables) (statuses : Dict String Status)
        → Agree statuses rules
        → (reserve_in t o (t', statuses)).1 ≢ looped
    within t' statuses agree =
        if_holds (λ (r : Tables × Outcome). r.1 ≢ looped)
          (is_allowed (get statuses o.requested_key))
          (λ y.
            concluded (walk o statuses (length statuses + 1) t' [] [] o.requested_key)
              (opened (get statuses o.requested_key) refl y))
          (λ _ e. cc)
      where
        opened :
            (s : Option Status)
            → get statuses o.requested_key ≡ s
            → is_allowed s ≡ true
            → walk o statuses (length statuses + 1) t' [] [] o.requested_key ≢ cycles
        opened none g y = cc
        opened (some status) g y =
            let r = agree o.requested_key status g in
            walk-acyclic o statuses rules agree (length rules + 2) (length statuses + 1) t' [] []
              o.requested_key refl
              (chains_end-passes rules rules o.requested_key r.0
                (accepted-chains_end family allow_empty forms rules h) r.1 (sym r.2.0 ∙ y))
