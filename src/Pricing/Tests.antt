-- ===== src/Pricing/Tests.antt =====
-- The price of a dated model behind a router.
use nimplex.Prelude.{◌≡◌, ◌≤◌, refl, true, none, some}
use nimplex.Prelude.Dict.{lookup}
use nimplex.Pricing.Rates.{
  TokenUsage, anthropic_rate, last_part, dashes, digits, undated, first_hit, exact_rate,
  lookup_rate, fallback_rate, usage_cost, rounded, compute_cost,
}
use nimplex.Pricing.Fallback.{IsLess, compute_cost-le}

routed :
    lookup_rate "openrouter" "anthropic/claude-haiku-4.5-20251001"
    ≡ some (anthropic_rate 10000 50000)
unfolding lookup_rate exact_rate first_hit lookup last_part dashes digits undated
routed = refl

abbrev usage : TokenUsage
usage = record {
  input_tokens = 1000;
  output_tokens = 200;
  cache_write_tokens = some 50;
  cache_read_tokens = none;
}

abbrev longer : TokenUsage
longer = record usage { output_tokens = 300 }

compute_cost-le_example :
    ((compute_cost "openrouter" "anthropic/claude-haiku-4.5-20251001" usage).cost
      ≤ rounded (usage_cost fallback_rate usage))
    × ((compute_cost "openrouter" "anthropic/claude-haiku-4.5-20251001" usage).estimated ≡ true
        → (compute_cost "openrouter" "anthropic/claude-haiku-4.5-20251001" usage).cost
          ≡ rounded (usage_cost fallback_rate usage))
    × (IsLess usage longer
        → (compute_cost "openrouter" "anthropic/claude-haiku-4.5-20251001" usage).cost
          ≤ (compute_cost "openrouter" "anthropic/claude-haiku-4.5-20251001" longer).cost)
compute_cost-le_example =
    compute_cost-le "openrouter" "anthropic/claude-haiku-4.5-20251001" usage longer
