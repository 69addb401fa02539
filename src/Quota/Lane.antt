-- ===== src/Quota/Lane.antt =====
-- The lanes of a quota profile and `_lane` (src/chatgpt_web_gateway/account_quota.py). Labels and
-- notes for readers are left out. A reserve ratio is given in thousandths; the sum with 0.999
-- that the code truncates is then exact.
use turtle_chat.Prelude.{
  ℕ, suc, ◌+◌, ◌*◌, ◌/◌, max, String, Bool, true, false, Option, none, some, List, [], ◌∷◌,
}
use turtle_chat.Dict.{Dict}

pub data LaneSource : Type 0 where
  turtle_recommendation untracked official_dynamic official_published official_multiplier
        observed_upstream :
      LaneSource

pub record Lane : Type 0 where
  pub enabled : Bool
  pub dispatch_budget_count : Option ℕ
  pub window_seconds : ℕ
  pub reserve_count : ℕ
  pub source : LaneSource
  pub published_min : Option ℕ
  pub published_max : Option ℕ
  pub published_window_seconds : Option ℕ

unfoldable pub lane_reserve : Bool → Option ℕ → ℕ → ℕ
lane_reserve true (some (suc budget)) ratio = max 1 ((suc budget * ratio + 999) / 1000)
lane_reserve _ _ ratio = 0

unfoldable pub lane : Bool → Option ℕ → ℕ → LaneSource → Option ℕ → Option ℕ → Option ℕ → ℕ → Lane
unfolding lane_reserve
lane enabled budget window source published_min published_max published_window ratio = record {
  enabled = enabled;
  dispatch_budget_count = budget;
  window_seconds = window;
  reserve_count = lane_reserve enabled budget ratio;
  source = source;
  published_min = published_min;
  published_max = published_max;
  published_window_seconds = published_window;
}

-- _lane(False)
unfoldable pub closed : Lane
unfolding lane
closed = lane false none 0 LaneSource.turtle_recommendation none none none 50

-- {key: _lane(True, None, 0, source="untracked") for key in keys}
unfoldable pub untracked_lanes : List String → Dict String Lane
unfolding lane
untracked_lanes [] = []
untracked_lanes (key ∷ keys) =
    (key, lane true none 0 LaneSource.untracked none none none 50) ∷ untracked_lanes keys
