-- ===== src/Pricing.antt =====
-- The simulated price of a request (src/chatgpt_web_gateway/api_pricing.py). Rates are nano-USD a
-- token, costs micro-USD; the quotient that the code rounds up as a floating-point number is
-- exact here. The text of a route is the one after `str(route or "").strip().lower()`.
pub mod Costs
mod Tests
use turtle_chat.Prelude.{
  ℕ, ◌+◌, ◌-◌, ◌*◌, ◌/◌, min, String, Option, none, some, ◌||◌, ◌==◌, string_eq, starts_with,
  if◌then◌else◌, ℤ, at_least,
}

pub record ApiPrice : Type 0 where
  pub model : String
  pub input_rate_nano_usd : ℕ
  pub cached_input_rate_nano_usd : Option ℕ
  pub cache_write_rate_nano_usd : Option ℕ
  pub output_rate_nano_usd : ℕ

abbrev pub price : String → ℕ → Option ℕ → Option ℕ → ℕ → ApiPrice
price model input cached written output = record {
  model = model;
  input_rate_nano_usd = input;
  cached_input_rate_nano_usd = cached;
  cache_write_rate_nano_usd = written;
  output_rate_nano_usd = output;
}

abbrev pub gpt_5_6_sol : ApiPrice
gpt_5_6_sol = price "gpt-5.6-sol" 5000 (some 500) (some 6250) 30000

abbrev pub gpt_5_5 : ApiPrice
gpt_5_5 = price "gpt-5.5" 5000 (some 500) none 30000

abbrev pub gpt_5_3 : ApiPrice
gpt_5_3 = price "gpt-5.3" 1750 (some 175) none 14000

abbrev pub o3 : ApiPrice
o3 = price "o3" 2000 (some 500) none 8000

abbrev pub gpt_5_4 : ApiPrice
gpt_5_4 = price "gpt-5.4" 2500 (some 250) none 15000

abbrev pub gpt_5_4_pro : ApiPrice
gpt_5_4_pro = price "gpt-5.4-pro" 30000 none none 180000

unfoldable pub price_for_route : String → ApiPrice
price_for_route route =
    if starts_with "o3" route
    then o3
    else if starts_with "gpt-5-3" route || route == "gpt-5.3"
    then gpt_5_3
    else if starts_with "gpt-5-4:pro" route || route == "gpt-5-4-pro"
    then gpt_5_4_pro
    else if starts_with "gpt-5-4" route || route == "gpt-5-4-thinking"
    then gpt_5_4
    else if starts_with "gpt-5-5" route || route == "gpt-5-5-instant"
    then gpt_5_5
    else gpt_5_6_sol

-- The tokens that have a rate of their own, and that rate.
abbrev billed : Option ℕ → ℕ → ℕ
billed none tokens = 0
billed (some rate) tokens = tokens

abbrev rate_of : Option ℕ → ℕ
rate_of none = 0
rate_of (some rate) = rate

unfoldable pub simulated_cost : ApiPrice → ℤ → ℤ → ℤ → ℤ → ℕ
simulated_cost price input_tokens cached_input_tokens cache_write_tokens output_tokens =
    let prompt = at_least 0 input_tokens in
    let cached = min prompt (at_least 0 cached_input_tokens) in
    let written = min (prompt - cached) (at_least 0 cache_write_tokens) in
    let billed_cached = billed price.cached_input_rate_nano_usd cached in
    let billed_written = billed price.cache_write_rate_nano_usd written in
    let ordinary = prompt - billed_cached - billed_written in
    (ordinary * price.input_rate_nano_usd
      + billed_cached * rate_of price.cached_input_rate_nano_usd
      + billed_written * rate_of price.cache_write_rate_nano_usd
      + at_least 0 output_tokens * price.output_rate_nano_usd
      + 999)
    / 1000
