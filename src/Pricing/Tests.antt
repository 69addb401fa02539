-- ===== src/Pricing/Tests.antt =====
-- The price of one route.
use turtle_chat.Pricing.{price_for_route}
use turtle_chat.Pricing.Costs.{IsFair, price_for_route-IsFair}

price_for_route-IsFair_example : IsFair (price_for_route "gpt-5-4:pro")
price_for_route-IsFair_example = price_for_route-IsFair "gpt-5-4:pro"
