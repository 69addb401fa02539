-- ===== src/ChatQuota/Rules.antt =====
-- SELECTIONS and `_normalize_group_rules` (branding/open-webui/turtle_chat/store.py). Texts are
-- those after `str(... or "").strip()`, and "" is no fallback.
use turtle_chat.Prelude.{
  ℕ, zero, suc, ◌+◌, ◌*◌, String, Bool, true, false, not, ◌&&◌, ◌||◌, Option, none, some, ◌==◌,
  string_eq, List, [], ◌∷◌, leb, if◌then◌else◌, ℤ, pos, negsuc, any_of, length,
}
use turtle_chat.Dict.{Dict, get, put, values}

pub record Selection : Type 0 where
  pub key : String
  pub model_id : String
  pub family : String

abbrev gpt : String → Selection
gpt key = record { key = key; model_id = "gpt-5-web"; family = "gpt" }

abbrev claude : String → Selection
claude key = record { key = key; model_id = "claude-web"; family = "claude" }

abbrev pub selections : List Selection
selections =
    gpt "latest:medium"
    ∷ gpt "latest:high"
    ∷ gpt "latest:xhigh"
    ∷ gpt "latest:pro"
    ∷ gpt "gpt-5-5:instant"
    ∷ gpt "gpt-5-3:standard"
    ∷ gpt "o3:standard"
    ∷ record { key = "image:create"; model_id = "gpt-image"; family = "gpt" }
    ∷ claude "claude-sonnet-5:standard"
    ∷ claude "claude-sonnet-5:extended"
    ∷ claude "claude-opus-4-8:standard"
    ∷ claude "claude-opus-4-8:extended"
    ∷ claude "claude-haiku-4-5:fast"
    ∷ []

abbrev pub selection_in : List Selection → String → Option Selection
selection_in [] key = none
selection_in (x ∷ xs) key = let rest = selection_in xs key in if x.key == key then some x else rest

-- SELECTION_BY_KEY
abbrev pub selection_by_key : String → Option Selection
selection_by_key key = selection_in selections key

abbrev pub is_known : String → Bool
is_known key = any_of (λ (x : Selection). x.key == key) selections

abbrev pub family_of : String → String
family_of key = family_in (selection_by_key key)
  where
    family_in : Option Selection → String
    family_in none = ""
    family_in (some x) = x.family

abbrev pub max_model_limit : ℕ
max_model_limit = 1000000

abbrev pub min_window_seconds : ℕ
min_window_seconds = 60

abbrev pub max_window_seconds : ℕ
max_window_seconds = 366 * 24 * 60 * 60

pub record Rule : Type 0 where
  pub enabled : Bool
  pub limit_count : Option ℕ
  pub window_seconds : ℕ
  pub fallback_key : Option String

abbrev pub closed_rule : Rule
closed_rule = record {
  enabled = false;
  limit_count = none;
  window_seconds = 0;
  fallback_key = none;
}

-- One rule as it is supplied.
pub record RuleForm : Type 0 where
  pub selection_key : String
  pub enabled : Bool
  pub limit_count : Option ℤ
  pub window_seconds : ℤ
  pub fallback_key : Option String

-- low <= z <= high
abbrev pub in_range : ℕ → ℕ → ℤ → Bool
in_range low high (pos n) = leb low n && leb n high
in_range low high (negsuc n) = false

abbrev pub natural : ℤ → ℕ
natural (pos n) = n
natural (negsuc n) = 0

abbrev pub fits : Option ℤ → ℤ → Bool
fits none window_seconds = true
fits (some limit) window_seconds =
    in_range 1 max_model_limit limit
    && in_range min_window_seconds max_window_seconds window_seconds

abbrev pub may_fall_back : String → Option String → Bool
may_fall_back key none = true
may_fall_back key (some fallback) =
    is_known fallback && not (fallback == key) && family_of fallback == family_of key

abbrev pub rule_of : RuleForm → Option ℤ → Rule
rule_of form none = record {
  enabled = form.enabled;
  limit_count = none;
  window_seconds = 0;
  fallback_key = none;
}
rule_of form (some limit) =
    if form.enabled
    then record {
      enabled = true;
      limit_count = some (natural limit);
      window_seconds = natural form.window_seconds;
      fallback_key = form.fallback_key;
    }
    else closed_rule

abbrev pub has : String → List String → Bool
has key [] = false
has key (x ∷ xs) = x == key || has key xs

abbrev pub keys_of_family : Option String → List Selection → List String
keys_of_family family [] = []
keys_of_family family (x ∷ xs) =
    let rest = keys_of_family family xs in if is_chosen family then x.key ∷ rest else rest
  where
    is_chosen : Option String → Bool
    is_chosen none = true
    is_chosen (some f) = x.family == f

-- The rules as supplied, one for each key.
abbrev pub supply : List String → List RuleForm → Dict String Rule → Option (Dict String Rule)
supply valid [] supplied = some supplied
supply valid (form ∷ forms) supplied =
    let rest =
      supply valid forms (put supplied form.selection_key (rule_of form form.limit_count)) in
    if is_known form.selection_key
      && has form.selection_key valid
      && not (is_supplied (get supplied form.selection_key))
      && fits form.limit_count form.window_seconds
      && may_fall_back form.selection_key form.fallback_key
    then rest
    else none
  where
    is_supplied : Option Rule → Bool
    is_supplied none = false
    is_supplied (some rule) = true

abbrev pub rule_or_closed : Option Rule → Rule
rule_or_closed none = closed_rule
rule_or_closed (some rule) = rule

abbrev pub complete : List String → Dict String Rule → Dict String Rule
complete [] supplied = []
complete (key ∷ keys) supplied = (key, rule_or_closed (get supplied key)) ∷ complete keys supplied

abbrev pub is_open : Option Rule → Bool
is_open none = false
is_open (some rule) = rule.enabled

-- The fallback, where there is one, is a key that the group opens.
abbrev pub falls_back_open : Dict String Rule → Rule → Bool
falls_back_open rules rule = leads rule.fallback_key
  where
    leads : Option String → Bool
    leads none = true
    leads (some fallback) = is_open (get rules fallback)

-- How `visit` ends: it returns, raises for a loop, or raises for a missing key. Where the fuel
-- runs out it is unfinished.
pub data Verdict : Type 0 where
  passes loops crashes unfinished : Verdict

abbrev pub passed : Verdict → Bool
passed passes = true
passed _ = false

-- What `visit` does once it has the fallback; `next` is its own call.
abbrev pub visit_next : List String → Option String → (String → Verdict) → Verdict
visit_next path none next = passes
visit_next path (some fallback) next = if has fallback path then loops else next fallback

abbrev pub visit_rule : List String → Option Rule → (String → Verdict) → Verdict
visit_rule path none next = crashes
visit_rule path (some rule) next = visit_next path rule.fallback_key next

unfoldable pub visit : Dict String Rule → ℕ → String → List String → Verdict
visit rules zero key path = unfinished
visit rules (suc fuel) key path =
    visit_rule path (get rules key) (λ fallback. visit rules fuel fallback (fallback ∷ path))

-- Every chain of fallbacks that starts at an enabled key ends.
abbrev pub chains_end : Dict String Rule → Dict String Rule → Bool
chains_end rules [] = true
chains_end rules ((key, rule) ∷ rest) =
    (not rule.enabled || passed (visit rules (length rules + 2) key (key ∷ [])))
    && chains_end rules rest

abbrev pub checked : Bool → Dict String Rule → Option (Dict String Rule)
checked allow_empty rules =
    if (allow_empty || any_of (λ (rule : Rule). rule.enabled) (values rules))
      && not (any_of (λ rule. not (falls_back_open rules rule)) (values rules))
      && chains_end rules rules
    then some rules
    else none

abbrev pub complete_checked :
    Bool → List String → Option (Dict String Rule) → Option (Dict String Rule)
complete_checked allow_empty valid none = none
complete_checked allow_empty valid (some supplied) = checked allow_empty (complete valid supplied)

unfoldable pub normalize_group_rules :
    Option String → Bool → List RuleForm → Option (Dict String Rule)
unfolding visit
normalize_group_rules family allow_empty forms =
    let valid = keys_of_family family selections in
    complete_checked allow_empty valid (supply valid forms [])
