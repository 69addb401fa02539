-- ===== src/Quota/Claude.antt =====
-- The Claude profiles (src/chatgpt_web_gateway/account_quota.py).
use turtle_chat.Prelude.{String, true, none, some, List, [], ◌∷◌}
use turtle_chat.Dict.{Dict}
use turtle_chat.Quota.Lane.{Lane, LaneSource, lane, closed, untracked_lanes}

abbrev pub claude_selection_keys : List String
claude_selection_keys =
    "claude-sonnet-5:standard" ∷ "claude-sonnet-5:extended" ∷ "claude-opus-4-8:standard"
    ∷ "claude-opus-4-8:extended" ∷ "claude-haiku-4-5:fast" ∷ []

unfoldable pub claude_untracked : Dict String Lane
unfolding untracked_lanes
claude_untracked = untracked_lanes claude_selection_keys

unfoldable pub claude_free : Dict String Lane
unfolding lane closed
claude_free =
    (
      "claude-sonnet-5:standard",
      lane true (some 8) 86400 (LaneSource.turtle_recommendation) none none none 125,
    )
    ∷ ("claude-sonnet-5:extended", closed)
    ∷ ("claude-opus-4-8:standard", closed)
    ∷ ("claude-opus-4-8:extended", closed)
    ∷ (
      "claude-haiku-4-5:fast",
      lane true (some 20) 86400 (LaneSource.turtle_recommendation) none none none 100,
    )
    ∷ []

unfoldable pub claude_pro : Dict String Lane
unfolding lane closed
claude_pro =
    (
      "claude-sonnet-5:standard",
      lane true (some 30) 18000 (LaneSource.turtle_recommendation) none none none 50,
    )
    ∷ (
      "claude-sonnet-5:extended",
      lane true (some 10) 604800 (LaneSource.turtle_recommendation) none none none 100,
    )
    ∷ (
      "claude-opus-4-8:standard",
      lane true (some 10) 604800 (LaneSource.turtle_recommendation) none none none 100,
    )
    ∷ (
      "claude-opus-4-8:extended",
      lane true (some 5) 604800 (LaneSource.turtle_recommendation) none none none 200,
    )
    ∷ (
      "claude-haiku-4-5:fast",
      lane true (some 80) 18000 (LaneSource.turtle_recommendation) none none none 50,
    )
    ∷ []

unfoldable pub claude_max_5x : Dict String Lane
unfolding lane closed
claude_max_5x =
    (
      "claude-sonnet-5:standard",
      lane true (some 150) 18000 (LaneSource.turtle_recommendation) none none none 50,
    )
    ∷ (
      "claude-sonnet-5:extended",
      lane true (some 50) 604800 (LaneSource.turtle_recommendation) none none none 50,
    )
    ∷ (
      "claude-opus-4-8:standard",
      lane true (some 50) 604800 (LaneSource.turtle_recommendation) none none none 50,
    )
    ∷ (
      "claude-opus-4-8:extended",
      lane true (some 25) 604800 (LaneSource.turtle_recommendation) none none none 50,
    )
    ∷ (
      "claude-haiku-4-5:fast",
      lane true (some 400) 18000 (LaneSource.turtle_recommendation) none none none 50,
    )
    ∷ []

unfoldable pub claude_max_20x : Dict String Lane
unfolding lane closed
claude_max_20x =
    (
      "claude-sonnet-5:standard",
      lane true (some 600) 18000 (LaneSource.turtle_recommendation) none none none 50,
    )
    ∷ (
      "claude-sonnet-5:extended",
      lane true (some 200) 604800 (LaneSource.turtle_recommendation) none none none 50,
    )
    ∷ (
      "claude-opus-4-8:standard",
      lane true (some 200) 604800 (LaneSource.turtle_recommendation) none none none 50,
    )
    ∷ (
      "claude-opus-4-8:extended",
      lane true (some 100) 604800 (LaneSource.turtle_recommendation) none none none 50,
    )
    ∷ (
      "claude-haiku-4-5:fast",
      lane true (some 1600) 18000 (LaneSource.turtle_recommendation) none none none 50,
    )
    ∷ []

unfoldable pub claude_account_quota_profiles : Dict String (Dict String Lane)
unfolding claude_untracked claude_free claude_pro claude_max_5x claude_max_20x
claude_account_quota_profiles =
    ("untracked", claude_untracked)
    ∷ ("free", claude_free)
    ∷ ("pro", claude_pro)
    ∷ ("max-5x", claude_max_5x)
    ∷ ("max-20x", claude_max_20x)
    ∷ []
