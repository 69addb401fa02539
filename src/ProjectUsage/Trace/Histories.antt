-- ===== src/ProjectUsage/Trace/Histories.antt =====
-- Sequences of orderly calls (src/chatgpt_web_gateway/project_usage.py).
use turtle_chat.Prelude.{
  ℕ, ◌≡◌, refl, sym, ap, ◌∙◌, String, false, not, ◌||◌, Option, none, some, ◌==◌, string_eq, ==_eq,
  pair_eq, List, [], ◌∷◌, arith, if_holds, any_of, leb, ltb, Bool-cases, inl, inr, some_inj,
}
use mathlib.Core.Path.{subst}
use turtle_chat.Dict.{Dict, get, sweep, values, count, total}
use turtle_chat.Dict.Laws.{get-pop, get-sweep}
use turtle_chat.Dict.Keys.{AllItems-map}
use turtle_chat.ProjectUsage.Types.{Reply, Permission, ApiKey, ProjectRequest, UsageStore}
use turtle_chat.ProjectUsage.Cost.{normalize_multiplier}
use turtle_chat.ProjectUsage.Permissions.{
  empty_store, price_with, set_pricing_config, is_pending, release_all, delete_found,
  delete_permission, revoke_of,
}
use turtle_chat.ProjectUsage.Keys.{
  Texts, Secret, create_key, new_key, revoke_key, revoke_found, revoked_key, is_enabled, key_limit,
  owned_active, same_name, differs,
}
use turtle_chat.ProjectUsage.Trace.{
  Call, prices, permits, grants, deletes, creates, revokes, begins, records, step, run,
}
use turtle_chat.ProjectUsage.Trace.Prepaid.{
  Requests, outstanding, reserved_at, Owns, AreOwned, put_key-Prepaid, released,
  outstanding-released_other, released-AreOwned,
}
use turtle_chat.ProjectUsage.Trace.Reserved.{
  IsPrepaid, IsOrderly, AreOrderly, set_permission-IsPrepaid, grant_credit-IsPrepaid,
  begin_request-IsPrepaid,
}
use turtle_chat.ProjectUsage.Trace.Settled.{record_usage-IsPrepaid}

revoked_key-owner :
    (row : ApiKey) (now : ℕ) → (revoked_key row now).owner_user_id ≡ row.owner_user_id
revoked_key-owner row now = ground arith

revoke_of-owner :
    (user : String) (now : ℕ) (key : ApiKey)
    → (revoke_of user now key).owner_user_id ≡ key.owner_user_id
revoke_of-owner user now key = ground arith

none_pending :
    (user : String) (requests : Requests)
    → any_of (is_pending user) (values requests) ≡ false
    → outstanding user requests ≡ 0
unfolding outstanding total any_of values
none_pending user [] h = refl
none_pending user ((k, r) ∷ d) h = ground (arith, none_pending user d)

create_key-IsPrepaid :
    (texts : Texts) (s : UsageStore) (u name : String) (secret : Secret) (now : ℕ)
    → get s.keys secret.key_id ≡ none
    → IsPrepaid s
    → IsPrepaid (create_key texts s u name secret now).0
unfolding create_key
create_key-IsPrepaid texts s u name secret now f w =
    if_holds After (not (is_enabled (get s.permissions u))) (λ _. w)
      λ _.
        if_holds After (name == "" || ltb 80 (texts.size name)) (λ _. w)
          λ _.
            if_holds After (leb (key_limit (get s.permissions u)) (count (owned_active u) s.keys))
              (λ _. w)
              λ _.
                if_holds After (any_of (same_name texts u name) (values s.keys)) (λ _. w)
                  λ _.
                    put_key-Prepaid w secret.key_id (new_key texts u name secret now)
                      (λ old g. cc (f, g))
  where
    After : UsageStore × Reply ApiKey → Type 0
    After r = IsPrepaid r.0

revoke_found-IsPrepaid :
    (s : UsageStore) (id : String) (owner : Option String) (now : ℕ) (o : Option ApiKey)
    → get s.keys id ≡ o
    → IsPrepaid s
    → IsPrepaid (revoke_found s id owner now o).0
revoke_found-IsPrepaid s id owner now none g w = w
revoke_found-IsPrepaid s id owner now (some row) g w =
    if_holds (λ (r : UsageStore × Reply ApiKey). IsPrepaid r.0) (differs owner row.owner_user_id)
      (λ _. w)
      λ _.
        put_key-Prepaid w id (revoked_key row now)
          (λ old h. revoked_key-owner row now ∙ ap ApiKey.owner_user_id (some_inj (sym g ∙ h)))

revoked-AreOwned :
    (user : String) (now : ℕ) (keys : Dict String ApiKey) (requests : Requests)
    → AreOwned keys requests
    → AreOwned (sweep (λ key. some (revoke_of user now key)) keys) requests
revoked-AreOwned user now keys requests o =
    AllItems-map _ _ requests (λ k r p. kept (get keys k.0) k r refl p) o
  where
    kept :
        (q : Option ApiKey) (k : String × String) (r : ProjectRequest)
        → get keys k.0 ≡ q
        → Owns q r.owner_user_id
        → Owns (get (sweep (λ key. some (revoke_of user now key)) keys) k.0) r.owner_user_id
    kept none k r g p = cc
    kept (some key) k r g p =
        rw (get-sweep _ keys k.0 key (revoke_of user now key) g refl)
          (revoke_of-owner user now key ∙ p)

released-exact :
    (s : UsageStore) (user : String) (now : ℕ)
    → any_of (is_pending user) (values (released user now s.requests)) ≡ false
    → outstanding user (released user now s.requests) ≡ 0
released-exact s user now h = none_pending user (released user now s.requests) h

-- A user without open requests is deleted.
delete_found-IsPrepaid :
    (s : UsageStore) (user : String) (now : ℕ) (o : Option Permission)
    → get s.permissions user ≡ o
    → any_of (is_pending user) (values (released user now s.requests)) ≡ false
    → IsPrepaid s
    → IsPrepaid (delete_found (release_all s user now) user now o).0
delete_found-IsPrepaid s user now none g h w = record {
  exact = λ v. elim (Bool-cases (user == v)) [
    | inl y ↦
        subst
          (λ x. reserved_at (get s.permissions x) ≡ outstanding x (released user now s.requests))
          (==_eq user v y) (ap reserved_at g ∙ sym (released-exact s user now h))
    | inr n ↦ w.exact v ∙ sym (outstanding-released_other user v now s.requests n)
  ];
  solvent = w.solvent;
  owned = released-AreOwned s.keys user now s.requests w.owned;
}
delete_found-IsPrepaid s user now (some row) g h w = record {
  exact = λ v. rw (get-pop s.permissions user v) (elim (Bool-cases (user == v)) [
    | inl y ↦ rw y (
        subst (λ x. 0 ≡ outstanding x (released user now s.requests)) (==_eq user v y)
          (sym (released-exact s user now h)))
    | inr n ↦ rw n (w.exact v ∙ sym (outstanding-released_other user v now s.requests n))
  ]);
  solvent = λ v.
      rw (get-pop s.permissions user v)
        (elim (Bool-cases (user == v)) [ inl y ↦ rw y tt | inr n ↦ rw n (w.solvent v) ]);
  owned = revoked-AreOwned user now s.keys _ (released-AreOwned s.keys user now s.requests w.owned);
}

delete_permission-IsPrepaid :
    (s : UsageStore) (user : String) (now : ℕ)
    → IsOrderly s (deletes user now)
    → IsPrepaid s
    → IsPrepaid (delete_permission s user now).0
unfolding delete_permission
delete_permission-IsPrepaid s user now h w =
    rw h (delete_found-IsPrepaid s user now (get s.permissions user) refl h w)

module _ (texts : Texts) where
  step-IsPrepaid :
      (s : UsageStore) (call : Call)
      → IsOrderly s call
      → IsPrepaid s
      → IsPrepaid (step texts s call)
  unfolding step set_pricing_config revoke_key
  step-IsPrepaid s (prices ppm by now) k w = priced (normalize_multiplier ppm)
    where
      priced : (o : Option ℕ) → IsPrepaid (price_with s by now o).0
      priced none = w
      priced (some v) = w
  step-IsPrepaid s (permits u enabled by m now) k w =
      set_permission-IsPrepaid s u enabled by m now w
  step-IsPrepaid s (grants g now) k w = grant_credit-IsPrepaid s g now w
  step-IsPrepaid s (deletes u now) k w = delete_permission-IsPrepaid s u now k w
  step-IsPrepaid s (creates u name secret now) k w =
      create_key-IsPrepaid texts s u name secret now k w
  step-IsPrepaid s (revokes id owner now) k w =
      revoke_found-IsPrepaid s id owner now (get s.keys id) refl w
  step-IsPrepaid s (begins key_id request_id z now) k w =
      begin_request-IsPrepaid s key_id request_id z now w
  step-IsPrepaid s (records e now) k w = record_usage-IsPrepaid s e now k w

  pub run-IsPrepaid :
      (s : UsageStore) (calls : List Call)
      → AreOrderly texts s calls
      → IsPrepaid s
      → IsPrepaid (run texts s calls)
  unfolding run
  run-IsPrepaid s [] k w = w
  run-IsPrepaid s (call ∷ calls) k w =
      run-IsPrepaid (step texts s call) calls k.1 (step-IsPrepaid s call k.0 w)

-- After any orderly calls on a store that starts empty: what each user has reserved is exactly
-- what the user's open requests hold back, every user has a balance, and it is not below what is
-- reserved. Orderly means that new keys have new identifiers, that no user is deleted with an
-- open request, and that a call that is recorded for the first time settles an open request and
-- costs at most what that holds back, or has no request and costs nothing.
pub run-IsPrepaid_empty :
    (texts : Texts) (calls : List Call)
    → AreOrderly texts empty_store calls
    → IsPrepaid (run texts empty_store calls)
unfolding get outstanding total
run-IsPrepaid_empty texts calls k =
    run-IsPrepaid texts empty_store calls k
      (record { exact = λ user. refl; solvent = λ user. tt; owned = tt })
