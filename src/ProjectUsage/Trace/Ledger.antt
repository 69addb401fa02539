-- ===== src/ProjectUsage/Trace/Ledger.antt =====
-- Balances against the credit ledger, along calls (src/chatgpt_web_gateway/project_usage.py).
use turtle_chat.Prelude.{
  ℕ, ◌≡◌, refl, sym, ap, ◌∙◌, String, Bool, true, false, not, ◌||◌, Option, none, some, ◌==◌,
  string_eq, some_inj, pair_eq, List, [], ◌∷◌, arith, if_holds, any_of, sum_of, ℤ, leb, ltb,
  minus-difference, eqb,
}
use turtle_chat.Dict.{get, count, values}
use turtle_chat.ProjectUsage.Types.{
  Reply, Permission, ApiKey, ProjectRequest, UsageEntry, UsageStore,
}
use turtle_chat.ProjectUsage.Cost.{normalize_multiplier}
use turtle_chat.ProjectUsage.Permissions.{empty_store, price_with, set_pricing_config, first_of}
use turtle_chat.ProjectUsage.Keys.{
  Texts, Secret, create_key, revoke_key, revoke_found, is_enabled, key_limit, owned_active,
  same_name, differs,
}
use turtle_chat.ProjectUsage.Records.{
  is_recorded, record_usage, record_found, record_once, record_new, charge_with, charge_balance,
  settle_request, Spent, negative, item_of, log_usage,
}
use turtle_chat.ProjectUsage.Trace.{
  Call, prices, permits, grants, deletes, creates, revokes, begins, records, step, run,
}
use turtle_chat.ProjectUsage.Trace.Booked.{
  add_none, gain, loss, given, spent, IsBooked, put_entry-Booked, booked-row,
  set_permission-IsBooked, grant_credit-IsBooked, held-IsBooked, get-put_self,
  begin_request-IsBooked,
}

loss-negative : (n : ℕ) → (gain (negative n) ≡ 0) × (loss (negative n) ≡ n)
loss-negative n = (ground arith, ground arith)

charge-IsBooked :
    (s : UsageStore) (key : ApiKey) (e : Spent) (item : UsageEntry) (row : Permission)
    (o : Option ℤ)
    → get s.permissions key.owner_user_id ≡ some row
    → row.balance_microusd ≡ o
    → IsBooked s
    → IsBooked (charge_balance s key e item row o).0
charge-IsBooked s key e item row none g b w = w
charge-IsBooked s key e item row (some old) g b w =
    if_holds (λ (r : UsageStore × Option ℤ). IsBooked r.0) (eqb item.estimated_cost_microusd 0)
      (λ _. w)
      λ _.
        let was = some_inj (sym b ∙ booked-row s key.owner_user_id row w g) in
        let z = loss-negative item.estimated_cost_microusd in
        put_entry-Booked s key.owner_user_id _ _ refl
          (rw (was, z.0, z.1, add_none)
            (ap some (
              minus-difference (given key.owner_user_id s.credit_ledger)
                (spent key.owner_user_id s.credit_ledger) item.estimated_cost_microusd)))
          w

settle-IsBooked :
    (s : UsageStore) (u : String) (k : String × String) (now : ℕ) (o : Option ProjectRequest)
    (row : Permission)
    → get s.permissions u ≡ some row
    → IsBooked s
    → IsBooked (settle_request s u k now o row).0
      × (get (settle_request s u k now o row).0.permissions u
          ≡ some (settle_request s u k now o row).1)
unfolding settle_request
settle-IsBooked s u k now none row e w = (w, e)
settle-IsBooked s u k now (some r) row e w =
    (held-IsBooked s u row _ e refl w, get-put_self s.permissions u _)

record_usage-IsBooked :
    (s : UsageStore) (e : Spent) (now : ℕ) → IsBooked s → IsBooked (record_usage s e now).0
unfolding record_usage record_once record_new
record_usage-IsBooked s e now w = found (get s.keys e.key_id)
  where
    charged_with :
        (key : ApiKey) (q : Option ProjectRequest) (o : Option Permission)
        → get s.permissions key.owner_user_id ≡ o
        → IsBooked (charge_with (log_usage s key (item_of s e)) key e (item_of s e) now q o).0
    charged_with key q none g = w
    charged_with key q (some row) g =
        let settled =
          settle-IsBooked (log_usage s key (item_of s e)) key.owner_user_id (e.key_id, e.request_id)
            now q row g w in
        charge-IsBooked _ key e (item_of s e) _ _ settled.1 refl settled.0

    once : (key : ApiKey) (o : Option UsageEntry) → IsBooked (record_once s key e now o).0
    once key (some item) = w
    once key none =
        charged_with key (get s.requests (e.key_id, e.request_id))
          (get s.permissions key.owner_user_id) refl

    found : (o : Option ApiKey) → IsBooked (record_found s e now o).0
    found none = w
    found (some key) = once key (first_of (is_recorded e.key_id e.request_id) s.usage)

abbrev pub is_delete : Call → Bool
is_delete (deletes user now) = true
is_delete _ = false

module _ (texts : Texts) where
  create_key-IsBooked :
      (s : UsageStore) (u name : String) (secret : Secret) (now : ℕ)
      → IsBooked s
      → IsBooked (create_key texts s u name secret now).0
  unfolding create_key
  create_key-IsBooked s u name secret now w =
      if_holds Booked_after (not (is_enabled (get s.permissions u))) (λ _. w)
        λ _.
          if_holds Booked_after (name == "" || ltb 80 (texts.size name)) (λ _. w)
            λ _.
              if_holds Booked_after
                (leb (key_limit (get s.permissions u)) (count (owned_active u) s.keys)) (λ _. w)
                λ _.
                  if_holds Booked_after (any_of (same_name texts u name) (values s.keys)) (λ _. w)
                    (λ _. w)
    where
      Booked_after : UsageStore × Reply ApiKey → Type 0
      Booked_after r = IsBooked r.0

  step-IsBooked :
      (s : UsageStore) (call : Call)
      → is_delete call ≡ false
      → IsBooked s
      → IsBooked (step texts s call)
  unfolding step set_pricing_config revoke_key
  step-IsBooked s (prices ppm by now) k w = priced (normalize_multiplier ppm)
    where
      priced : (o : Option ℕ) → IsBooked (price_with s by now o).0
      priced none = w
      priced (some v) = w
  step-IsBooked s (permits u enabled by m now) k w = set_permission-IsBooked s u enabled by m now w
  step-IsBooked s (grants g now) k w = grant_credit-IsBooked s g now w
  step-IsBooked s (deletes u now) k w = cc
  step-IsBooked s (creates u name secret now) k w = create_key-IsBooked s u name secret now w
  step-IsBooked s (revokes key_id owner now) k w = found (get s.keys key_id)
    where
      found : (o : Option ApiKey) → IsBooked (revoke_found s key_id owner now o).0
      found none = w
      found (some row) =
          if_holds (λ (r : UsageStore × Reply ApiKey). IsBooked r.0)
            (differs owner row.owner_user_id) (λ _. w) (λ _. w)
  step-IsBooked s (begins key_id request_id z now) k w =
      begin_request-IsBooked s key_id request_id z now w
  step-IsBooked s (records e now) k w = record_usage-IsBooked s e now w

  run-IsBooked :
      (s : UsageStore) (calls : List Call)
      → any_of is_delete calls ≡ false
      → IsBooked s
      → IsBooked (run texts s calls)
  unfolding run any_of
  run-IsBooked s [] k w = w
  run-IsBooked s (call ∷ calls) k w =
      run-IsBooked (step texts s call) calls (ground (arith, k))
        (step-IsBooked s call (ground (arith, k)) w)

-- Along any calls that delete no user, on a store that starts empty: the balance of every user is
-- what the ledger says the user was given less what it says the user was charged, and the ledger
-- has no amount for anyone else.
pub run-IsBooked_empty :
    (texts : Texts) (calls : List Call)
    → any_of is_delete calls ≡ false
    → IsBooked (run texts empty_store calls)
unfolding get given spent sum_of
run-IsBooked_empty texts calls k = run-IsBooked texts empty_store calls k (λ user. (refl, refl))
