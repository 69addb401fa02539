-- ===== src/Quota/Gpt.antt =====
-- The ChatGPT profiles (src/chatgpt_web_gateway/account_quota.py).
use turtle_chat.Prelude.{String, true, none, some, List, [], ◌∷◌}
use turtle_chat.Dict.{Dict}
use turtle_chat.Quota.Lane.{Lane, LaneSource, lane, closed, untracked_lanes}

abbrev pub gpt_selection_keys : List String
gpt_selection_keys =
    "latest:medium" ∷ "latest:high" ∷ "latest:xhigh" ∷ "latest:pro" ∷ "gpt-5-5:instant"
    ∷ "gpt-5-3:standard" ∷ "o3:standard" ∷ "image:create" ∷ []

unfoldable pub gpt_untracked : Dict String Lane
unfolding untracked_lanes
gpt_untracked = untracked_lanes gpt_selection_keys

unfoldable pub gpt_free : Dict String Lane
unfolding lane closed
gpt_free =
    ("latest:medium", closed)
    ∷ ("latest:high", closed)
    ∷ ("latest:xhigh", closed)
    ∷ ("latest:pro", closed)
    ∷ ("gpt-5-5:instant", lane true none 0 (LaneSource.official_dynamic) none none (some 18000) 50)
    ∷ ("gpt-5-3:standard", closed)
    ∷ ("o3:standard", closed)
    ∷ ("image:create", lane true (some 10) 86400 (LaneSource.observed_upstream) none none none 0)
    ∷ []

unfoldable pub gpt_go : Dict String Lane
unfolding lane closed
gpt_go =
    ("latest:medium", closed)
    ∷ ("latest:high", closed)
    ∷ ("latest:xhigh", closed)
    ∷ ("latest:pro", closed)
    ∷ (
      "gpt-5-5:instant",
      lane true (some 160) 10800 (LaneSource.official_published) (some 160) (some 160) none 50,
    )
    ∷ ("gpt-5-3:standard", closed)
    ∷ ("o3:standard", closed)
    ∷ (
      "image:create",
      lane true (some 20) 86400 (LaneSource.turtle_recommendation) none none none 100,
    )
    ∷ []

unfoldable pub gpt_plus : Dict String Lane
unfolding lane closed
gpt_plus =
    ("latest:medium", lane true none 0 (LaneSource.official_dynamic) none none none 50)
    ∷ ("latest:high", lane true none 0 (LaneSource.official_dynamic) none none none 50)
    ∷ ("latest:xhigh", closed)
    ∷ ("latest:pro", closed)
    ∷ (
      "gpt-5-5:instant",
      lane true (some 160) 10800 (LaneSource.official_published) (some 160) (some 160) none 50,
    )
    ∷ ("gpt-5-3:standard", lane true none 0 (LaneSource.official_dynamic) none none none 50)
    ∷ (
      "o3:standard",
      lane true (some 100) 604800 (LaneSource.official_published) (some 100) (some 100) none 50,
    )
    ∷ ("image:create", lane true (some 100) 86400 (LaneSource.observed_upstream) none none none 100)
    ∷ []

unfoldable pub gpt_pro_5x : Dict String Lane
unfolding lane closed
gpt_pro_5x =
    ("latest:medium", lane true none 0 (LaneSource.official_dynamic) none none none 50)
    ∷ ("latest:high", lane true none 0 (LaneSource.official_dynamic) none none none 50)
    ∷ ("latest:xhigh", lane true none 0 (LaneSource.official_dynamic) none none none 50)
    ∷ ("latest:pro", lane true none 0 (LaneSource.official_dynamic) none none none 50)
    ∷ ("gpt-5-5:instant", lane true none 0 (LaneSource.official_multiplier) none none none 50)
    ∷ ("gpt-5-3:standard", lane true none 0 (LaneSource.official_dynamic) none none none 50)
    ∷ ("o3:standard", lane true none 0 (LaneSource.official_dynamic) none none none 50)
    ∷ (
      "image:create",
      lane true (some 500) 86400 (LaneSource.turtle_recommendation) none none none 100,
    )
    ∷ []

unfoldable pub gpt_pro_20x : Dict String Lane
unfolding lane closed
gpt_pro_20x =
    ("latest:medium", lane true none 0 (LaneSource.official_dynamic) none none none 50)
    ∷ ("latest:high", lane true none 0 (LaneSource.official_dynamic) none none none 50)
    ∷ ("latest:xhigh", lane true none 0 (LaneSource.official_dynamic) none none none 50)
    ∷ ("latest:pro", lane true none 0 (LaneSource.official_dynamic) none none none 50)
    ∷ ("gpt-5-5:instant", lane true none 0 (LaneSource.official_multiplier) none none none 50)
    ∷ ("gpt-5-3:standard", lane true none 0 (LaneSource.official_dynamic) none none none 50)
    ∷ ("o3:standard", lane true none 0 (LaneSource.official_dynamic) none none none 50)
    ∷ (
      "image:create",
      lane true (some 1000) 86400 (LaneSource.observed_upstream) none none none 100,
    )
    ∷ []

unfoldable pub account_quota_profiles : Dict String (Dict String Lane)
unfolding gpt_untracked gpt_free gpt_go gpt_plus gpt_pro_5x gpt_pro_20x
account_quota_profiles =
    ("untracked", gpt_untracked)
    ∷ ("free", gpt_free)
    ∷ ("go", gpt_go)
    ∷ ("plus", gpt_plus)
    ∷ ("pro-5x", gpt_pro_5x)
    ∷ ("pro-20x", gpt_pro_20x)
    ∷ []
