-- ===== src/ChatQuota/Statuses.antt =====
-- The statuses of the lanes against the rules (branding/open-webui/turtle_chat/store.py).
use turtle_chat.Prelude.{
  true, ℕ, ◌+◌, ◌≡◌, refl, String, Option, none, some, ◌==◌, string_eq, pair_eq, [], ◌∷◌, leb,
  if_holds, Bool-cases, inl, inr, some_inj,
}
use mathlib.Core.Path.{subst}
use turtle_chat.Dict.{Dict, get}
use turtle_chat.ChatQuota.Rules.{Rule, is_open}
use turtle_chat.ChatQuota.Usage.{
  Tables, Status, Window, limited_status, status_under, model_statuses,
}
use turtle_chat.ChatQuota.Reserve.{is_allowed}

-- What a status has from its rule.
abbrev pub Follows : Status → Rule → Type 0
Follows status rule =
    (status.allowed ≡ rule.enabled)
    × (status.limit_count ≡ rule.limit_count)
    × (status.fallback_key ≡ rule.fallback_key)

limited-Follows :
    (t : Tables) (user key : String) (rule : Rule) (limit now : ℕ) (w : Option Window)
    → Follows (limited_status t user key rule limit now w).1 rule
limited-Follows t user key rule limit now none = (refl, refl, refl)
limited-Follows t user key rule limit now (some window) =
    if_holds (λ (r : Tables × Status). Follows r.1 rule)
      (leb (window.started_at + rule.window_seconds) now) (λ _. (refl, refl, refl))
      (λ _. (refl, refl, refl))

under-Follows :
    (t : Tables) (user key : String) (rule : Rule) (now : ℕ) (limit : Option ℕ)
    → Follows (status_under t user key rule now limit).1 rule
under-Follows t user key rule now none = (refl, refl, refl)
under-Follows t user key rule now (some limit) =
    if_holds (λ (r : Tables × Status). Follows r.1 rule) rule.enabled
      (λ _. limited-Follows t user key rule limit now (get t.chat_quota_window (user, key)))
      (λ _. (refl, refl, refl))

pub model_statuses-Follows :
    (t : Tables) (user : String) (now : ℕ) (rules : Dict String Rule) (key : String)
    (status : Status)
    → get (model_statuses t user now rules).1 key ≡ some status
    → (rule : Rule) × (get rules key ≡ some rule) × Follows status rule
unfolding get
model_statuses-Follows t user now [] key status h = cc
model_statuses-Follows t user now ((k, rule) ∷ rules) key status h = elim (Bool-cases (k == key)) [
  | inl y ↦ (
    rule,
    rw y refl,
    subst (λ s. Follows s rule) (some_inj (rw y at h))
        (under-Follows t user k rule now rule.limit_count),
  )
  | inr n ↦
      let later =
        model_statuses-Follows (status_under t user k rule now rule.limit_count).0 user now rules
          key status (rw n at h) in
      (later.0, rw n later.1, later.2)
]

under-unlimited :
    (t : Tables) (user key : String) (rule : Rule) (now : ℕ) (limit : Option ℕ)
    → rule.limit_count ≡ limit
    → (status_under t user key rule now limit).1.limit_count ≡ none
    → (status_under t user key rule now limit).1.allowed ≡ true
    → (status_under t user key rule now limit).1.available ≡ true
under-unlimited t user key rule now none e n a = rw a refl
under-unlimited t user key rule now (some limit) e n a =
    let f = under-Follows t user key rule now (some limit) in cc (f.1, e, n)

-- An open lane without a limit is available.
pub model_statuses-unlimited :
    (t : Tables) (user : String) (now : ℕ) (rules : Dict String Rule) (key : String)
    (status : Status)
    → get (model_statuses t user now rules).1 key ≡ some status
    → status.limit_count ≡ none
    → status.allowed ≡ true
    → status.available ≡ true
unfolding get
model_statuses-unlimited t user now [] key status h n a = cc
model_statuses-unlimited t user now ((k, rule) ∷ rules) key status h n a =
    elim (Bool-cases (k == key)) [
      | inl y ↦
          subst (λ (s : Status). s.limit_count ≡ none → s.allowed ≡ true → s.available ≡ true)
            (some_inj (rw y at h)) (under-unlimited t user k rule now rule.limit_count refl) n a
      | inr b ↦
          model_statuses-unlimited (status_under t user k rule now rule.limit_count).0 user now
            rules key status (rw b at h) n a
    ]

-- A lane is allowed exactly where the rules open it.
pub is_allowed-is_open :
    (t : Tables) (user : String) (now : ℕ) (rules : Dict String Rule) (key : String)
    → is_allowed (get (model_statuses t user now rules).1 key) ≡ is_open (get rules key)
unfolding get
is_allowed-is_open t user now [] key = refl
is_allowed-is_open t user now ((k, rule) ∷ rules) key = elim (Bool-cases (k == key)) [
  | inl y ↦ rw y ((under-Follows t user k rule now rule.limit_count).0)
  | inr n ↦
      rw n
        (is_allowed-is_open (status_under t user k rule now rule.limit_count).0 user now rules key)
]
