-- ===== src/Concurrency/Limits.antt =====
-- The limits of a request: those that `acquire` computes, and their refresh by a resolver.
use turtle_chat.Prelude.{ℕ, String, Option, none, some, ℤ, at_least, min}
use turtle_chat.Concurrency.Entry.{Coordinator, Limits, provider_limit}

-- An optional ceiling: `default if value is None else max(0, int(value))`.
abbrev pub optional_limit : ℕ → Option ℤ → ℕ
optional_limit default none = default
optional_limit default (some value) = at_least 0 value

unfoldable pub request_limits :
    Coordinator → String → ℤ → ℤ → Option ℤ → Option ℤ → Option ℤ → Limits
request_limits c provider user_limit group_limit account_pool_limit provider_cap global_cap =
    let provider_ceiling = provider_limit c.env provider in
    record {
      user = at_least 1 user_limit;
      group = at_least 1 group_limit;
      account_pool = optional_limit provider_ceiling account_pool_limit;
      provider = min provider_ceiling (optional_limit provider_ceiling provider_cap);
      global = min c.global_limit (optional_limit c.global_limit global_cap);
    }

-- What the caller's resolver returns: there is none, a number, or a dictionary that may have each
-- of three keys.
pub data Resolved : Type 0 where
  no_resolver : Resolved
  capacity : ℤ → Resolved
  capacities : Option ℤ → Option ℤ → Option ℤ → Resolved

abbrev or_keep : ℕ → (ℕ → ℕ) → Option ℤ → ℕ
or_keep old cap none = old
or_keep old cap (some value) = cap (at_least 0 value)

unfoldable pub refresh_dynamic_limits : Coordinator → Limits → String → Resolved → Limits
refresh_dynamic_limits c limits provider no_resolver = limits
refresh_dynamic_limits c limits provider (capacity value) = record limits {
  account_pool = at_least 0 value;
}
refresh_dynamic_limits c limits provider (capacities pool family global) = record limits {
  account_pool = or_keep limits.account_pool (λ v. v) pool;
  provider = or_keep limits.provider (min (provider_limit c.env provider)) family;
  global = or_keep limits.global (min c.global_limit) global;
}
