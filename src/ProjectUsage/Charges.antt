-- ===== src/ProjectUsage/Charges.antt =====
-- What a call is charged, against what was reserved for it
-- (src/chatgpt_web_gateway/project_usage.py).
use turtle_chat.Prelude.{
  ℕ, ◌≤◌, ◌≡◌, refl, sym, ap, ◌∙◌, String, not, Option, none, some, string_eq, pair_eq, if_holds, ℤ,
  at_least,
}
use mathlib.Core.Path.{subst}
use turtle_chat.Dict.{Dict, get, put}
use turtle_chat.Dict.Laws.{get-put}
use turtle_chat.ProjectUsage.Types.{
  Reply, returns, raises, ApiKey, Permission, ProjectRequest, UsageStore,
}
use turtle_chat.ProjectUsage.Cost.{
  normalize_multiplier, actual_cost, charged, official_of, charged-le-actual_cost,
}
use turtle_chat.ProjectUsage.Permissions.{first_of, price_with, set_pricing_config}
use turtle_chat.ProjectUsage.Requests.{
  begin_request, begin_new, begin_with, begin_for, reserve_for, refreshed, held_back, lacks,
}
use turtle_chat.ProjectUsage.Records.{
  Spent, recorded, record_usage, record_found, record_once, record_new, is_recorded, multiplier_of,
}

-- What a call of `begin_request` that returns has done.
record IsBegun (s : UsageStore) (key_id request_id : String) (authorized : ℕ) (after : UsageStore)
    (r : ProjectRequest) : Type 0 where
  stored : get after.requests (key_id, request_id) ≡ some r
  priced : r.cost_multiplier_ppm ≡ s.config.cost_multiplier_ppm
  held : r.reserved_microusd ≡ actual_cost authorized s.config.cost_multiplier_ppm
  same_usage : after.usage ≡ s.usage
  same_keys : after.keys ≡ s.keys

abbrev Began : UsageStore → String → String → ℕ → UsageStore × Reply ProjectRequest → Type 0
Began s key_id request_id authorized (after, raises f) = Unit
Began s key_id request_id authorized (after, returns r) =
    IsBegun s key_id request_id authorized after r
    × ((key : ApiKey) × (get s.keys key_id ≡ some key))

get-put_request :
    (d : Dict (String × String) ProjectRequest) (k : String × String) (r : ProjectRequest)
    → get (put d k r) k ≡ some r
get-put_request d k r = rw (get-put d k k r) (rw ((pair_eq.same_iff k k).1 refl) refl)

reserve_for-Began :
    (s : UsageStore) (key_id request_id : String) (key : ApiKey) (row : Permission)
    (authorized now : ℕ)
    → get s.keys key_id ≡ some key
    → Began s key_id request_id authorized (
        reserve_for
          (refreshed s key.owner_user_id row now)
          key_id
          request_id
          key.owner_user_id
          (held_back s key.owner_user_id row now)
          authorized
          now)
unfolding reserve_for
reserve_for-Began s key_id request_id key row authorized now g =
    if_holds (Began s key_id request_id authorized)
      (lacks row.balance_microusd (held_back s key.owner_user_id row now).reserved_microusd
        (actual_cost authorized s.config.cost_multiplier_ppm))
      (λ _. tt)
      (λ _. (
        record {
          stored = get-put_request _ (key_id, request_id) _;
          priced = refl;
          held = refl;
          same_usage = refl;
          same_keys = refl;
        },
        (key, g),
      ))

begin_request-Began :
    (s : UsageStore) (key_id request_id : String) (authorization : ℤ) (now : ℕ)
    → Began s key_id request_id
        (at_least 0 authorization)
        (begin_request s key_id request_id authorization now)
unfolding begin_request begin_for
begin_request-Began s key_id request_id authorization now =
    fresh (get s.requests (key_id, request_id))
  where
    authorized : ℕ
    authorized = at_least 0 authorization

    owned :
        (key : ApiKey) (o : Option Permission)
        → get s.keys key_id ≡ some key
        → Began s key_id request_id authorized (begin_for s key_id request_id key authorized now o)
    owned key none g = tt
    owned key (some row) g =
        if_holds (Began s key_id request_id authorized) (not row.enabled) (λ _. tt)
          (λ _. reserve_for-Began s key_id request_id key row authorized now g)

    known :
        (o : Option ApiKey)
        → get s.keys key_id ≡ o
        → Began s key_id request_id authorized (begin_with s key_id request_id authorized now o)
    known none g = tt
    known (some key) g = owned key (get s.permissions key.owner_user_id) g

    fresh :
        (o : Option ProjectRequest)
        → Began s key_id request_id authorized (begin_new s key_id request_id authorized now o)
    fresh (some used) = tt
    fresh none = known (get s.keys key_id) refl

Began-returns :
    (s : UsageStore) (key_id request_id : String) (authorized : ℕ)
    (b : UsageStore × Reply ProjectRequest) (r : ProjectRequest)
    → Began s key_id request_id authorized b
    → b.1 ≡ returns r
    → IsBegun s key_id request_id authorized b.0 r
      × ((key : ApiKey) × (get s.keys key_id ≡ some key))
Began-returns s key_id request_id authorized (after, raises f) r c h = cc
Began-returns s key_id request_id authorized (after, returns x) r c h =
    (subst (IsBegun s key_id request_id authorized after) (ap request_or h) c.0, c.1)
  where
    request_or : Reply ProjectRequest → ProjectRequest
    request_or (returns y) = y
    request_or (raises f) = x

set_pricing_config_same :
    (s : UsageStore) (ppm : ℤ) (by : String) (t : ℕ)
    → let after = (set_pricing_config s ppm by t).0 in
      (after.requests ≡ s.requests) × (after.usage ≡ s.usage) × (after.keys ≡ s.keys)
unfolding set_pricing_config
set_pricing_config_same s ppm by t = priced (normalize_multiplier ppm)
  where
    priced :
        (o : Option ℕ)
        → ((price_with s by t o).0.requests ≡ s.requests)
          × ((price_with s by t o).0.usage ≡ s.usage)
          × ((price_with s by t o).0.keys ≡ s.keys)
    priced none = (refl, refl, refl)
    priced (some ppm) = (refl, refl, refl)

record_usage-charged :
    (s : UsageStore) (e : Spent) (now : ℕ) (key : ApiKey) (r : ProjectRequest)
    → get s.keys e.key_id ≡ some key
    → first_of (is_recorded e.key_id e.request_id) s.usage ≡ none
    → get s.requests (e.key_id, e.request_id) ≡ some r
    → (balance : Option ℤ) × ((record_usage s e now).1
        ≡ recorded e.id
            (charged
              (official_of e.official_cost_microusd e.estimated_cost_microusd)
              r.cost_multiplier_ppm)
            balance)
unfolding record_usage record_once
record_usage-charged s e now key r g u q = (
  (record_new s key e now).1,
  ap (λ o. (record_found s e now o).1) g
      ∙ ap (λ o. (record_once s key e now o).1) u
      ∙ ap
          (λ o.
            recorded e.id
              (charged (official_of e.official_cost_microusd e.estimated_cost_microusd)
                (multiplier_of s o))
              (record_new s key e now).1)
          q,
)

pub record_usage-within :
    (s : UsageStore) (e : Spent) (authorization : ℤ) (now : ℕ) (r : ProjectRequest) (ppm : ℤ)
    (updated_by : String) (changed later : ℕ)
    → (begin_request s e.key_id e.request_id authorization now).1 ≡ returns r
    → first_of (is_recorded e.key_id e.request_id) s.usage ≡ none
    → official_of e.official_cost_microusd e.estimated_cost_microusd ≤ at_least 0 authorization
    → let cost =
        charged
          (official_of e.official_cost_microusd e.estimated_cost_microusd)
          s.config.cost_multiplier_ppm in
      ((balance : Option ℤ) × ((record_usage
            (set_pricing_config
              (begin_request s e.key_id e.request_id authorization now).0
              ppm
              updated_by
              changed).0
            e
            later).1
          ≡ recorded e.id cost balance))
      × (cost ≤ r.reserved_microusd)
record_usage-within s e authorization now r ppm updated_by changed later h u l =
    let began =
      Began-returns s e.key_id e.request_id (at_least 0 authorization)
        (begin_request s e.key_id e.request_id authorization now) r
        (begin_request-Began s e.key_id e.request_id authorization now) h in
    let after = (begin_request s e.key_id e.request_id authorization now).0 in
    let same = set_pricing_config_same after ppm updated_by changed in
    let official = official_of e.official_cost_microusd e.estimated_cost_microusd in
    let done =
      record_usage-charged (set_pricing_config after ppm updated_by changed).0 e later began.1.0 r
        (ap (λ d. get d e.key_id) (same.2 ∙ began.0.same_keys) ∙ began.1.1)
        (ap (first_of (is_recorded e.key_id e.request_id)) (same.1 ∙ began.0.same_usage) ∙ u)
        (ap (λ d. get d (e.key_id, e.request_id)) same.0 ∙ began.0.stored) in
    (
      (done.0, done.1 ∙ ap (λ m. recorded e.id (charged official m) done.0) began.0.priced),
      subst (λ n. charged official s.config.cost_multiplier_ppm ≤ n) (sym began.0.held)
          (charged-le-actual_cost official (at_least 0 authorization) s.config.cost_multiplier_ppm
            l),
    )
