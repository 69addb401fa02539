-- ===== src/ProjectUsage/Callers.antt =====
-- Who `authenticate` lets in (src/chatgpt_web_gateway/project_usage.py).
use turtle_chat.Prelude.{
  ℕ, ◌≡◌, refl, ap, String, Bool, true, false, Option, none, some, ◌==◌, string_eq, ==_eq, ==_refl,
  List, [], ◌∷◌, any_of, Bool-cases, inl, inr, some_inj, &&-true,
}
use mathlib.Core.Path.{subst}
use turtle_chat.Dict.{get, values}
use turtle_chat.Dict.Laws.{get-pop}
use turtle_chat.ProjectUsage.Types.{
  Reply, returns, raises, Permission, ApiKey, is_active, UsageStore,
}
use turtle_chat.ProjectUsage.Permissions.{
  first_of, delete_permission, delete_found, release_all, is_pending,
}
use turtle_chat.ProjectUsage.Keys.{Texts, authenticate, admits, is_enabled}

first_of-holds :
    {A : Type 0} (p : A → Bool) (xs : List A) (x : A) → first_of p xs ≡ some x → p x ≡ true
unfolding first_of
first_of-holds p [] x h = cc
first_of-holds p (y ∷ ys) x h = elim (Bool-cases (p y)) [
  | inl t ↦ subst (λ z. p z ≡ true) (some_inj (rw t at h)) t
  | inr f ↦ first_of-holds p ys x (rw f at h)
]

-- A secret is let in only with a key that is active, whose owner has an enabled permission, and
-- whose digest is that of the secret.
pub authenticate-admits :
    (texts : Texts) (s : UsageStore) (secret : String) (key : ApiKey)
    → authenticate texts s secret ≡ some key
    → (is_active key.status ≡ true)
      × (is_enabled (get s.permissions key.owner_user_id) ≡ true)
      × (texts.digest secret ≡ key.key_digest)
unfolding authenticate
authenticate-admits texts s secret key h =
    let a = first_of-holds (admits texts s secret) (values s.keys) key h in
    let b = &&-true _ (texts.digest secret == key.key_digest) a in
    let c = &&-true (is_active key.status) _ b.0 in
    (c.0, c.1, ==_eq (texts.digest secret) key.key_digest b.1)

row_of : Reply Permission → Option Permission
row_of (returns row) = some row
row_of (raises f) = none

deleted-gone :
    (s : UsageStore) (user : String) (now : ℕ) (row : Permission)
    → (delete_permission s user now).1 ≡ returns row
    → get (delete_permission s user now).0.permissions user ≡ none
unfolding delete_permission row_of
deleted-gone s user now row h =
    elim (Bool-cases (any_of (is_pending user) (values (release_all s user now).requests))) [
      | inl y ↦ let h' = rw y at h in cc (ap row_of h')
      | inr n ↦ rw n (let h' = rw n at h in found (get s.permissions user) h')
    ]
  where
    found :
        (o : Option Permission)
        → (delete_found (release_all s user now) user now o).1 ≡ returns row
        → get (delete_found (release_all s user now) user now o).0.permissions user ≡ none
    found none e = cc (ap row_of e)
    found (some x) e = rw (get-pop s.permissions user user) (rw (==_refl user) refl)

-- Once a user is deleted, no secret is let in as one of that user.
pub delete_permission-shuts :
    (texts : Texts) (s : UsageStore) (user secret : String) (now : ℕ) (row : Permission)
    (key : ApiKey)
    → (delete_permission s user now).1 ≡ returns row
    → authenticate texts (delete_permission s user now).0 secret ≡ some key
    → (key.owner_user_id == user) ≡ false
delete_permission-shuts texts s user secret now row key h a =
    elim (Bool-cases (key.owner_user_id == user)) [
      | inl y ↦
          let b = (authenticate-admits texts (delete_permission s user now).0 secret key a).1 in
          let g = deleted-gone s user now row h in
          let i =
            ap (λ u. is_enabled (get (delete_permission s user now).0.permissions u))
              (==_eq key.owner_user_id user y) in
          cc (b, i, ap is_enabled g)
      | inr n ↦ n
    ]
