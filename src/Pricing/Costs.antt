-- ===== src/Pricing/Costs.antt =====
-- What is true of the simulated cost at the price of any route
-- (src/chatgpt_web_gateway/api_pricing.py).
use turtle_chat.Prelude.{
  ℕ, ◌+◌, ◌≤◌, ◌<◌, String, arith, pos, if_holds, ◌||◌, ◌==◌, string_eq, starts_with,
}
use turtle_chat.Pricing.{
  ApiPrice, gpt_5_6_sol, gpt_5_5, gpt_5_3, o3, gpt_5_4, gpt_5_4_pro, price_for_route,
  simulated_cost,
}

-- What a price promises of the cost of some tokens.
pub record IsFair (price : ApiPrice) : Type 0 where
  pub cached_cheaper :
      (input cached more written output : ℕ)
      → simulated_cost price (pos input) (pos (cached + more)) (pos written) (pos output)
        ≤ simulated_cost price (pos input) (pos cached) (pos written) (pos output)
  pub output_dearer :
      (input cached written output more : ℕ)
      → simulated_cost price (pos input) (pos cached) (pos written) (pos output)
        ≤ simulated_cost price (pos input) (pos cached) (pos written) (pos (output + more))
  pub never_free :
      (input cached written output : ℕ)
      → 0 < input + output
      → 0 < simulated_cost price (pos input) (pos cached) (pos written) (pos output)

gpt_5_6_sol-IsFair : IsFair gpt_5_6_sol
unfolding simulated_cost
gpt_5_6_sol-IsFair = record {
  cached_cheaper = λ i c m w o. omega arith;
  output_dearer = λ i c w o m. omega arith;
  never_free = λ i c w o h. omega (arith, h);
}

gpt_5_5-IsFair : IsFair gpt_5_5
unfolding simulated_cost
gpt_5_5-IsFair = record {
  cached_cheaper = λ i c m w o. omega arith;
  output_dearer = λ i c w o m. omega arith;
  never_free = λ i c w o h. omega (arith, h);
}

gpt_5_3-IsFair : IsFair gpt_5_3
unfolding simulated_cost
gpt_5_3-IsFair = record {
  cached_cheaper = λ i c m w o. omega arith;
  output_dearer = λ i c w o m. omega arith;
  never_free = λ i c w o h. omega (arith, h);
}

o3-IsFair : IsFair o3
unfolding simulated_cost
o3-IsFair = record {
  cached_cheaper = λ i c m w o. omega arith;
  output_dearer = λ i c w o m. omega arith;
  never_free = λ i c w o h. omega (arith, h);
}

gpt_5_4-IsFair : IsFair gpt_5_4
unfolding simulated_cost
gpt_5_4-IsFair = record {
  cached_cheaper = λ i c m w o. omega arith;
  output_dearer = λ i c w o m. omega arith;
  never_free = λ i c w o h. omega (arith, h);
}

gpt_5_4_pro-IsFair : IsFair gpt_5_4_pro
unfolding simulated_cost
gpt_5_4_pro-IsFair = record {
  cached_cheaper = λ i c m w o. omega arith;
  output_dearer = λ i c w o m. omega arith;
  never_free = λ i c w o h. omega (arith, h);
}

-- At the price of any route and for any numbers of tokens: counting more of the input tokens as
-- read from the cache, with the count of cache writes as it is, never raises the cost, more output
-- tokens never lower it, and a request with at least one input or output token costs something.
pub price_for_route-IsFair : (route : String) → IsFair (price_for_route route)
unfolding price_for_route
price_for_route-IsFair route =
    if_holds IsFair (starts_with "o3" route) (λ _. o3-IsFair)
      λ _.
        if_holds IsFair (starts_with "gpt-5-3" route || route == "gpt-5.3") (λ _. gpt_5_3-IsFair)
          λ _.
            if_holds IsFair (starts_with "gpt-5-4:pro" route || route == "gpt-5-4-pro")
              (λ _. gpt_5_4_pro-IsFair)
              λ _.
                if_holds IsFair (starts_with "gpt-5-4" route || route == "gpt-5-4-thinking")
                  (λ _. gpt_5_4-IsFair)
                  λ _.
                    if_holds IsFair (starts_with "gpt-5-5" route || route == "gpt-5-5-instant")
                      (λ _. gpt_5_5-IsFair) (λ _. gpt_5_6_sol-IsFair)
