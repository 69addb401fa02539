-- ===== src/ProjectUsage/Tests.antt =====
-- One user with one key, and calls on the store.
use turtle_chat.Prelude.{
  ℕ, ◌≤◌, ◌<◌, ◌≡◌, refl, String, true, false, Option, ℤ, none, some, ◌==◌, string_eq, pair_eq,
  List, [], ◌∷◌, arith, any_of, select, pos,
}
use turtle_chat.Dict.{Dict, count, get, pop, values, put, sweep, total}
use turtle_chat.ProjectUsage.Types.{
  raises, Failure, Permission, ApiKey, KeyStatus, ProjectRequest, RequestState, UsageStore,
}
use turtle_chat.ProjectUsage.Cost.{actual_cost, charged}
use turtle_chat.ProjectUsage.Permissions.{
  first_of, Grant, grant_credit, delete_permission, empty_store, set_permission,
}
use turtle_chat.ProjectUsage.Keys.{Texts, Secret, authenticate, create_key}
use turtle_chat.ProjectUsage.Requests.{begin_request, begin_for, give_back, reserve_for}
use turtle_chat.ProjectUsage.Records.{Spent, record_usage}
use turtle_chat.ProjectUsage.Repeats.{grant_twice, record_twice}
use turtle_chat.ProjectUsage.Callers.{delete_permission-shuts}
use turtle_chat.ProjectUsage.Lifecycle.{create_key-authenticates}
use turtle_chat.ProjectUsage.Charges.{record_usage-within}
use turtle_chat.ProjectUsage.Permissions.{set_pricing_config}
use turtle_chat.ProjectUsage.Keys.{new_key, revoke_key}
use turtle_chat.ProjectUsage.Requests.{new_request}
use turtle_chat.ProjectUsage.Records.{recorded}
use turtle_chat.ProjectUsage.Trace.{Call, permits, grants, creates, begins, records, run, step}
use turtle_chat.ProjectUsage.Trace.Booked.{IsBooked}
use turtle_chat.ProjectUsage.Trace.Ledger.{run-IsBooked_empty}
use turtle_chat.ProjectUsage.Trace.Prepaid.{outstanding, reserved_at}
use turtle_chat.ProjectUsage.Trace.Reserved.{IsPrepaid}
use turtle_chat.ProjectUsage.Trace.Histories.{run-IsPrepaid_empty}
use turtle_chat.ProjectUsage.Trace.Leaks.{record_late, delete_leaks}

abbrev plain_texts : Texts
plain_texts = record { digest = λ x. x; casefold = λ x. x; size = λ x. 3 }

abbrev credit : Grant
credit = record {
  user_id = "u";
  amount_microusd = pos 1000;
  reason = "start";
  idempotency_key = "g1";
  updated_by = "admin";
  entry_id = "l1";
}

abbrev secret : Secret
secret = record { key_id = "k"; key_prefix = "tk"; plaintext = "tk-secret" }

abbrev spent_call : Spent
spent_call = record {
  id = "e1";
  ledger_id = "l2";
  key_id = "k";
  request_id = "r1";
  total_tokens = 10;
  official_cost_microusd = some (pos 300);
  estimated_cost_microusd = none;
  created_at = 50;
}

abbrev day : List Call
day =
    permits "u" true "admin" none 1
    ∷ grants credit 2
    ∷ creates "u" "app" secret 3
    ∷ begins "k" "r1" (pos 400) 4
    ∷ records spent_call 50
    ∷ []

abbrev user_row : Permission
user_row = record {
  user_id = "u";
  enabled = true;
  created_at = 1;
  updated_at = 1;
  updated_by = "admin";
  max_keys = 5;
  balance_microusd = some (pos 1000);
  reserved_microusd = 500;
}

abbrev user_key : ApiKey
user_key = record {
  id = "k";
  owner_user_id = "u";
  name = "app";
  key_prefix = "tk";
  key_digest = "tk-secret";
  status = KeyStatus.active;
  created_at = 3;
  last_used_at = none;
  revoked_at = none;
  request_count = 0;
  total_tokens = 0;
  total_estimated_cost_microusd = 0;
  total_official_cost_microusd = 0;
}

abbrev request_row : String → RequestState → ℕ → ℕ → ProjectRequest
request_row id state held expires_at = record {
  key_id = "k";
  request_id = id;
  owner_user_id = "u";
  state = state;
  reserved_microusd = held;
  cost_multiplier_ppm = 1000000;
  created_at = 4;
  updated_at = 4;
  expires_at = expires_at;
}

abbrev store_with : Permission → Dict (String × String) ProjectRequest → UsageStore
store_with row requests = record {
  keys = ("k", user_key) ∷ [];
  permissions = ("u", row) ∷ [];
  usage = [];
  requests = requests;
  credit_ledger = [];
  config = record { cost_multiplier_ppm = 1000000; updated_at = none; updated_by = "system" };
}

-- r1 was released on expiry, r2 is open.
abbrev store_late : UsageStore
store_late = store_with user_row (
    (("k", "r1"), request_row "r1" RequestState.released 400 1204)
    ∷ (("k", "r2"), request_row "r2" RequestState.reserved 500 3000)
    ∷ [])

-- r1 has run out, r2 is open.
abbrev store_due : UsageStore
store_due = store_with user_row (
    (("k", "r1"), request_row "r1" RequestState.reserved 200 1204)
    ∷ (("k", "r2"), request_row "r2" RequestState.reserved 300 3000)
    ∷ [])

abbrev store_idle : UsageStore
store_idle = store_with user_row []

run-IsBooked_example : IsBooked (run plain_texts empty_store day)
unfolding any_of
run-IsBooked_example = run-IsBooked_empty plain_texts day refl

run-IsPrepaid_example : IsPrepaid (run plain_texts empty_store day)
unfolding get step put values any_of first_of set_permission grant_credit create_key begin_request
    begin_for give_back reserve_for sweep actual_cost count select
run-IsPrepaid_example =
    run-IsPrepaid_empty plain_texts day (tt, (tt, (refl, (tt, ((λ h. (refl, omega arith)), tt)))))

grant_twice_example :
    (grant_credit (grant_credit store_idle credit 5).0 credit 6).0
    ≡ (grant_credit store_idle credit 5).0
grant_twice_example = grant_twice store_idle credit 5 6

record_twice_example :
    (record_usage (record_usage store_due spent_call 50).0 spent_call 60).0
    ≡ (record_usage store_due spent_call 50).0
record_twice_example = record_twice store_due spent_call 50 60

abbrev store_rich : UsageStore
store_rich = store_with (record user_row { reserved_microusd = 0 }) []

record_usage-within_example :
    ((balance : Option ℤ) × ((record_usage
          (set_pricing_config
            (begin_request store_rich "k" "r1" (pos 400) 4).0
            (pos 2000000)
            "admin"
            5).0
          spent_call
          50).1
        ≡ recorded "e1" (charged 300 1000000) balance))
    × (charged 300 1000000 ≤ 400)
unfolding begin_request begin_for give_back reserve_for sweep actual_cost select values get first_of
record_usage-within_example =
    record_usage-within store_rich spent_call (pos 400) 4 (new_request "k" "r1" "u" 400 1000000 4)
      (pos 2000000) "admin" 5 50 refl refl (omega arith)

abbrev second_secret : Secret
second_secret = record { key_id = "k3"; key_prefix = "tk"; plaintext = "tk-second" }

create_key-authenticates_example :
    (authenticate plain_texts
        (create_key plain_texts store_idle "u" "second" second_secret 7).0
        "tk-second"
      ≡ some (new_key plain_texts "u" "second" second_secret 7))
    × (authenticate plain_texts
          (revoke_key
            (create_key plain_texts store_idle "u" "second" second_secret 7).0
            "k3"
            none
            9).0
          "tk-second"
        ≡ none)
unfolding create_key get count values any_of
create_key-authenticates_example =
    create_key-authenticates plain_texts store_idle "u" "second" second_secret 7 9
      (new_key plain_texts "u" "second" second_secret 7) (refl, (refl, tt)) refl

abbrev other_key : ApiKey
other_key = record user_key { id = "k2"; owner_user_id = "v"; key_digest = "tk-other" }

abbrev store_two : UsageStore
store_two = record store_idle {
  keys = ("k", user_key) ∷ ("k2", other_key) ∷ [];
  permissions = ("u", user_row) ∷ ("v", record user_row { user_id = "v" }) ∷ [];
}

delete_permission-shuts_example : (other_key.owner_user_id == "u") ≡ false
unfolding delete_permission authenticate first_of values get any_of sweep pop
delete_permission-shuts_example =
    delete_permission-shuts plain_texts store_two "u" "tk-other" 1300 user_row other_key refl refl

record_late_example :
    reserved_at (get (record_usage store_late spent_call 1300).0.permissions "u")
    < outstanding "u" (record_usage store_late spent_call 1300).0.requests
unfolding get first_of outstanding total
record_late_example =
    record_late store_late spent_call 1300 user_key user_row
      (request_row "r1" RequestState.released 400 1204) refl refl refl refl refl (omega arith)
      (omega arith) refl

delete_leaks_example :
    ((delete_permission store_due "u" 1300).1 ≡ raises Failure.key_conflict)
    × (outstanding "u" (delete_permission store_due "u" 1300).0.requests
        < reserved_at (get (delete_permission store_due "u" 1300).0.permissions "u"))
unfolding get outstanding total values any_of sweep
delete_leaks_example =
    delete_leaks store_due "u" 1300 user_row ("k", "r1")
      (request_row "r1" RequestState.reserved 200 1204) refl refl refl refl (omega arith) refl
