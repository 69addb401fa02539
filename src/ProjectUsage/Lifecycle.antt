-- ===== src/ProjectUsage/Lifecycle.antt =====
-- A key from its creation to its revocation (src/chatgpt_web_gateway/project_usage.py).
use turtle_chat.Prelude.{
  ℕ, ◌≡◌, refl, sym, ap, ◌∙◌, String, Bool, true, false, ◌||◌, none, some, ◌==◌, string_eq, ==_refl,
  [], ◌∷◌, arith, if_holds, leb, ltb, any_of, Bool-cases, inl, inr,
}
use turtle_chat.Dict.{Dict, get, put, values, count}
use turtle_chat.Dict.Laws.{get-put, put_twice}
use turtle_chat.Dict.Items.{AllItems, AllItems-put}
use turtle_chat.Dict.Keys.{AllItems-map}
use turtle_chat.ProjectUsage.Types.{Reply, returns, raises, ApiKey, UsageStore}
use turtle_chat.ProjectUsage.Permissions.{first_of}
use turtle_chat.ProjectUsage.Keys.{
  Texts, Secret, create_key, new_key, authenticate, admits, is_enabled, key_limit, owned_active,
  same_name, revoke_key, revoked_key,
}

module _ {V : Type 0} (p : V → Bool) where
  first_of-none :
      (d : Dict String V) → AllItems (λ k v. p v ≡ false) d → first_of p (values d) ≡ none
  unfolding first_of values
  first_of-none [] a = refl
  first_of-none ((k, v) ∷ d) a = rw a.0 (first_of-none d a.1)

  -- The one value that passes the test is found.
  first_of-put :
      (d : Dict String V) (k : String) (v : V)
      → AllItems (λ k v. p v ≡ false) d
      → get d k ≡ none
      → p v ≡ true
      → first_of p (values (put d k v)) ≡ some v
  unfolding first_of values put get
  first_of-put [] k v a n h = rw h refl
  first_of-put ((i, x) ∷ d) k v a n h = elim (Bool-cases (i == k)) [
    | inl y ↦ cc (rw y at n)
    | inr b ↦ rw b (rw a.0 (first_of-put d k v a.1 (rw b at n) h))
  ]

-- What a call of `create_key` that returns has done.
abbrev Created :
    Texts → UsageStore → String → String → Secret → ℕ → ApiKey → UsageStore × Reply ApiKey → Type 0
Created texts s owner name secret now key (after, raises f) = Unit
Created texts s owner name secret now key (after, returns row) =
    (after ≡ record s { keys = put s.keys secret.key_id (new_key texts owner name secret now) })
    × (row ≡ new_key texts owner name secret now)
    × (is_enabled (get s.permissions owner) ≡ true)

create_key-Created :
    (texts : Texts) (s : UsageStore) (owner name : String) (secret : Secret) (now : ℕ)
    (key : ApiKey)
    → Created texts s owner name secret now key (create_key texts s owner name secret now)
unfolding create_key
create_key-Created texts s owner name secret now key =
    elim (Bool-cases (is_enabled (get s.permissions owner))) [
      | inr n ↦ rw n tt
      | inl y ↦ rw y (
          if_holds made (name == "" || ltb 80 (texts.size name)) (λ _. tt)
            λ _.
              if_holds made
                (leb (key_limit (get s.permissions owner)) (count (owned_active owner) s.keys))
                (λ _. tt)
                λ _.
                  if_holds made (any_of (same_name texts owner name) (values s.keys)) (λ _. tt)
                    (λ _. (refl, refl, y)))
    ]
  where
    made : UsageStore × Reply ApiKey → Type 0
    made r = Created texts s owner name secret now key r

Created-returns :
    (texts : Texts) (s : UsageStore) (owner name : String) (secret : Secret) (now : ℕ)
    (key : ApiKey) (r : UsageStore × Reply ApiKey)
    → Created texts s owner name secret now key r
    → r.1 ≡ returns key
    → (r.0 ≡ record s { keys = put s.keys secret.key_id (new_key texts owner name secret now) })
      × (key ≡ new_key texts owner name secret now)
      × (is_enabled (get s.permissions owner) ≡ true)
Created-returns texts s owner name secret now key (after, raises f) c h = cc
Created-returns texts s owner name secret now key (after, returns row) c h =
    (c.0, (let e = returned h in sym e ∙ c.1), c.2)
  where
    row_or : Reply ApiKey → ApiKey
    row_or (returns x) = x
    row_or (raises f) = row

    returned : returns row ≡ returns key → row ≡ key
    returned e = ap row_or e

-- The identifier is new, and no key of the store has the secret's digest.
abbrev pub IsFresh : Texts → UsageStore → Secret → Type 0
IsFresh texts s secret =
    (get s.keys secret.key_id ≡ none)
    × AllItems (λ k row. (texts.digest secret.plaintext == row.key_digest) ≡ false) s.keys

module _ (texts : Texts) (s : UsageStore) (owner name : String) (secret : Secret) (now : ℕ) where
  abbrev made_key : ApiKey
  made_key = new_key texts owner name secret now

  unadmitted :
      AllItems (λ k row. (texts.digest secret.plaintext == row.key_digest) ≡ false) s.keys
      → AllItems (λ k row. admits texts s secret.plaintext row ≡ false) s.keys
  unadmitted a = AllItems-map _ _ s.keys (λ k row h. rw h (ground arith)) a

  let_in :
      IsFresh texts s secret
      → is_enabled (get s.permissions owner) ≡ true
      → authenticate texts (record s { keys = put s.keys secret.key_id made_key }) secret.plaintext
        ≡ some made_key
  unfolding authenticate
  let_in f y =
      first_of-put (admits texts s secret.plaintext) s.keys secret.key_id made_key (unadmitted f.1)
        f.0 (rw y (==_refl (texts.digest secret.plaintext)))

  revoked_out :
      (later : ℕ)
      → IsFresh texts s secret
      → authenticate texts
          (revoke_key
            (record s { keys = put s.keys secret.key_id made_key })
            secret.key_id
            none
            later).0
          secret.plaintext
        ≡ none
  unfolding authenticate revoke_key
  revoked_out later f =
      rw
        (
          get-put s.keys secret.key_id secret.key_id made_key,
          ==_refl secret.key_id,
          put_twice s.keys secret.key_id made_key (revoked_key made_key later),
        )
        (first_of-none (admits texts s secret.plaintext)
          (put s.keys secret.key_id (revoked_key made_key later))
          (AllItems-put (λ k row. admits texts s secret.plaintext row ≡ false) s.keys secret.key_id
            (revoked_key made_key later) (unadmitted f.1) refl))

-- Take a call of `create_key` that returns a key, with a new identifier and a secret whose digest no
-- stored key has. Right after it the secret is let in as that key, and if the key is then revoked,
-- with no owner given, the secret is let in as none.
pub create_key-authenticates :
    (texts : Texts) (s : UsageStore) (owner name : String) (secret : Secret) (now later : ℕ)
    (key : ApiKey)
    → IsFresh texts s secret
    → (create_key texts s owner name secret now).1 ≡ returns key
    → (authenticate texts (create_key texts s owner name secret now).0 secret.plaintext ≡ some key)
      × (authenticate texts
            (revoke_key (create_key texts s owner name secret now).0 secret.key_id none later).0
            secret.plaintext
          ≡ none)
create_key-authenticates texts s owner name secret now later key f h =
    let c =
      Created-returns texts s owner name secret now key (create_key texts s owner name secret now)
        (create_key-Created texts s owner name secret now key) h in
    rw (c.0, c.1)
      (
        let_in texts s owner name secret now f c.2,
        revoked_out texts s owner name secret now later f,
      )
