-- ===== src/ChatQuota/Answers.antt =====
-- The answers of `reserve` (branding/open-webui/turtle_chat/store.py).
use turtle_chat.Prelude.{
  ℕ, zero, suc, ◌+◌, ◌≡◌, ◌≢◌, refl, sym, ◌∙◌, String, Bool, true, false, not, Option, none, some,
  string_eq, List, [], ◌∷◌, arith, if_holds, length,
}
use mathlib.Core.Path.{subst}
use turtle_chat.Dict.{Dict, get}
use turtle_chat.ChatQuota.Rules.{Rule, is_known, selection_by_key, has, is_open}
use turtle_chat.ChatQuota.Usage.{Tables, Status, cleanup_stale, model_statuses}
use turtle_chat.ChatQuota.Reserve.{
  Order, Walk, finds, exhausted, cycles, missing, unfinished, walk, is_allowed, conclude, reserve,
  Outcome, reserves, forbidden, unknown_key, wrong_model, looped, crashed, endless, model_quota,
  in_model,
}
use turtle_chat.ChatQuota.Chains.{walk_status-ends, reserve-finishes}
use turtle_chat.ChatQuota.Statuses.{
  model_statuses-Follows, model_statuses-unlimited, is_allowed-is_open,
}
use turtle_chat.ChatQuota.Limits.{HasRoom, IsWithin, reserve-IsWithin}

-- The lane that is asked for is open, and has a limit.
abbrev pub IsLimited : Dict String Rule → String → Type 0
IsLimited rules key =
    (rule : Rule) × (get rules key ≡ some rule) × (rule.enabled ≡ true) × (rule.limit_count ≢ none)

-- What each answer means.
abbrev pub IsAnswered : Order → Dict String Rule → Tables × Outcome → Type 0
IsAnswered o rules (t, reserves row) =
    HasRoom t o.user_id rules row.selection_key 0 row.quota_window_id
IsAnswered o rules (t, unknown_key) = is_known o.requested_key ≡ false
IsAnswered o rules (t, wrong_model) = in_model o.model_id (selection_by_key o.requested_key) ≡ false
IsAnswered o rules (t, forbidden) = is_open (get rules o.requested_key) ≡ false
IsAnswered o rules (t, model_quota reset_at) = IsLimited rules o.requested_key
IsAnswered o rules (t, looped) = Unit
IsAnswered o rules (t, crashed) = true ≡ false
IsAnswered o rules (t, endless) = true ≡ false

-- The refusals alone.
abbrev IsRefused : Order → Dict String Rule → Tables × Outcome → Type 0
IsRefused o rules (t, reserves row) = Unit
IsRefused o rules (t, endless) = Unit
IsRefused o rules r = IsAnswered o rules r

walk-present :
    (o : Order) (statuses : Dict String Status) (fuel : ℕ) (t : Tables) (visited : List String)
    (resets : List ℕ) (key : String)
    → is_allowed (get statuses key) ≡ true
    → walk o statuses fuel t visited resets key ≢ missing
unfolding walk
walk-present o statuses zero t visited resets key a = λ e. cc
walk-present o statuses (suc fuel) t visited resets key a =
    if_holds (λ w. w ≢ missing) (has key visited) (λ _ e. cc)
      λ _.
        walk_status-ends o statuses (λ w. w ≢ missing) t resets key (get statuses key)
          (λ t' resets' fallback. walk o statuses fuel t' (key ∷ visited) resets' fallback)
          (λ status g y e. cc) (λ reset_at e. cc) (λ g e. cc (subst (λ s. is_allowed s ≡ true) g a))
          (λ status fallback t' resets' g e y.
            walk-present o statuses fuel t' (key ∷ visited) resets' fallback y)

-- An available lane without a limit is found at once.
walk-unlimited :
    (o : Order) (statuses : Dict String Status) (fuel : ℕ) (t : Tables) (resets : List ℕ)
    (key : String) (status : Status) (reset_at : Option ℕ)
    → get statuses key ≡ some status
    → status.available ≡ true
    → status.limit_count ≡ none
    → walk o statuses (suc fuel) t [] resets key ≢ exhausted reset_at
unfolding walk
walk-unlimited o statuses fuel t resets key status reset_at g y n = rw (g, y, n) (λ e. cc)

concluded-IsRefused :
    (before : Tables) (o : Order) (rules : Dict String Rule) (w : Walk)
    → w ≢ missing
    → ((reset_at : Option ℕ) → w ≡ exhausted reset_at → IsLimited rules o.requested_key)
    → IsRefused o rules (conclude before o w)
concluded-IsRefused before o rules (finds key tried) m l = tt
concluded-IsRefused before o rules (exhausted reset_at) m l = l reset_at refl
concluded-IsRefused before o rules cycles m l = tt
concluded-IsRefused before o rules missing m l = absurd (m refl)
concluded-IsRefused before o rules unfinished m l = tt

module _ (t : Tables) (rules : Dict String Rule) (o : Order) where
  exhausted-IsLimited :
      (s : Option Status) (reset_at : Option ℕ)
      → get (model_statuses t o.user_id o.now rules).1 o.requested_key ≡ s
      → is_allowed s ≡ true
      → walk o
          (model_statuses t o.user_id o.now rules).1
          (length (model_statuses t o.user_id o.now rules).1 + 1)
          (model_statuses t o.user_id o.now rules).0
          []
          []
          o.requested_key
        ≡ exhausted reset_at
      → IsLimited rules o.requested_key
  exhausted-IsLimited none reset_at g a w = cc
  exhausted-IsLimited (some status) reset_at g a w =
      let statuses = (model_statuses t o.user_id o.now rules).1 in
      let r = model_statuses-Follows t o.user_id o.now rules o.requested_key status g in
      (
        r.0,
        r.1,
        sym r.2.0 ∙ a,
        λ n.
            walk-unlimited o statuses (length statuses) (model_statuses t o.user_id o.now rules).0
              [] o.requested_key status reset_at g
              (model_statuses-unlimited t o.user_id o.now rules o.requested_key status g (r.2.1 ∙ n)
                a)
              (r.2.1 ∙ n)
              (subst
                (λ k.
                  walk o statuses k (model_statuses t o.user_id o.now rules).0 [] [] o.requested_key
                  ≡ exhausted reset_at)
                (omega arith) w),
      )

not_inj : (b : Bool) → not b ≡ true → b ≡ false
not_inj true y = cc
not_inj false y = refl

reserve-IsRefused :
    (t : Tables) (rules : Dict String Rule) (o : Order) → IsRefused o rules (reserve t rules o)
unfolding reserve
reserve-IsRefused t rules o =
    if_holds (IsRefused o rules) (not (is_known o.requested_key)) (λ y. not_inj _ y)
      λ _.
        if_holds (IsRefused o rules) (not (in_model o.model_id (selection_by_key o.requested_key)))
          (λ y. not_inj _ y)
          λ _.
            let start = cleanup_stale t o.user_id o.now in
            let r = model_statuses start o.user_id o.now rules in
            if_holds (IsRefused o rules) (is_allowed (get r.1 o.requested_key))
              (λ y.
                concluded-IsRefused t o rules
                  (walk o r.1 (length r.1 + 1) r.0 [] [] o.requested_key)
                  (walk-present o r.1 (length r.1 + 1) r.0 [] [] o.requested_key y)
                  (λ reset_at w.
                    exhausted-IsLimited start rules o (get r.1 o.requested_key) reset_at refl y w))
              (λ n. sym (is_allowed-is_open start o.user_id o.now rules o.requested_key) ∙ n)

answered :
    (o : Order) (rules : Dict String Rule) (r : Tables × Outcome)
    → IsWithin o.user_id rules r
    → IsRefused o rules r
    → r.1 ≢ endless
    → IsAnswered o rules r
answered o rules (t, reserves row) a b c = a
answered o rules (t, forbidden) a b c = b
answered o rules (t, unknown_key) a b c = b
answered o rules (t, wrong_model) a b c = b
answered o rules (t, looped) a b c = tt
answered o rules (t, crashed) a b c = b
answered o rules (t, endless) a b c = absurd (c refl)
answered o rules (t, model_quota reset_at) a b c = b

-- A reservation is for a lane that the rules open; where the lane has a limit, the row stands in a
-- window whose committed and reserved units, its own included, are at most the limit. A request is
-- refused for its quota only if its lane is open and has a limit, as forbidden only if its lane is
-- not open, and otherwise for an unknown lane, the lane of another model, or a cycle of fallbacks.
pub reserve-IsAnswered :
    (t : Tables) (rules : Dict String Rule) (o : Order) → IsAnswered o rules (reserve t rules o)
reserve-IsAnswered t rules o =
    answered o rules (reserve t rules o) (reserve-IsWithin t rules o) (reserve-IsRefused t rules o)
      (reserve-finishes t rules o o.requested_key).0
