-- ===== src/ChatQuota/Tests.antt =====
-- A group with two open lanes, of which one has a limit, and a request of it.
use turtle_chat.Prelude.{
  ◌+◌, ◌≢◌, refl, String, true, false, Option, none, some, string_eq, pair_eq, List, [], ◌∷◌,
  any_of, length, pos,
}
use turtle_chat.Dict.{Dict, get, put, values}
use turtle_chat.ChatQuota.Rules.{
  Rule, RuleForm, normalize_group_rules, visit, unfinished as visit_unfinished,
}
use turtle_chat.ChatQuota.Usage.{Tables}
use turtle_chat.ChatQuota.Reserve.{Order, reserve, endless, looped}
use turtle_chat.ChatQuota.Chains.{reserve-finishes}
use turtle_chat.ChatQuota.Acyclic.{reserve-acyclic}
use turtle_chat.ChatQuota.Answers.{IsAnswered, reserve-IsAnswered}

abbrev form : String → Option String → RuleForm
form key fallback = record {
  selection_key = key;
  enabled = true;
  limit_count = some (pos 1);
  window_seconds = pos 3600;
  fallback_key = fallback;
}

abbrev group_forms : List RuleForm
group_forms = form "latest:high" (some "latest:medium") ∷ form "latest:medium" none ∷ []

abbrev rules_or_none : Option (Dict String Rule) → Dict String Rule
rules_or_none none = []
rules_or_none (some rules) = rules

abbrev group_rules : Dict String Rule
group_rules = rules_or_none (normalize_group_rules (some "gpt") false group_forms)

abbrev tables : Tables
tables = record { chat_usage = []; chat_quota_window = [] }

abbrev order : Order
order = record {
  id = "r1";
  request_id = "q1";
  user_id = "u";
  requested_key = "latest:high";
  model_id = some "gpt-5-web";
  now = 100;
  draw = λ key. key;
}

reserve-finishes_example :
    ((reserve tables group_rules order).1 ≢ endless)
    × (visit group_rules (length group_rules + 2) "latest:high" ("latest:high" ∷ [])
        ≢ visit_unfinished)
reserve-finishes_example = reserve-finishes tables group_rules order "latest:high"

reserve-acyclic_example : (reserve tables group_rules order).1 ≢ looped
unfolding normalize_group_rules get put values any_of
reserve-acyclic_example =
    reserve-acyclic (some "gpt") false group_forms group_rules tables order refl

reserve-IsAnswered_example : IsAnswered order group_rules (reserve tables group_rules order)
reserve-IsAnswered_example = reserve-IsAnswered tables group_rules order
