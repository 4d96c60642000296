-- ===== src/Pricing/Rates.antt =====
-- The price tables, the lookup of a model's rate and the cost of a usage. A price is in 10⁻⁴ dollars
-- for a million tokens, which is 10⁻¹⁰ dollars for a token; a multiplier is in hundredths.
use nimplex.Prelude.{
  ℕ, zero, suc, ◌+◌, ◌*◌, ◌/◌, String, Bool, true, false, ◌&&◌, Option, none, some, [], ◌∷◌,
  if◌then◌else◌, leb, ◌==◌,
}
use Prim.Native.Char.{Char, code}
use Prim.Native.String.{◌++◌ as ◌<>◌}
use nimplex.Prelude.Dict.{Dict, lookup}

pub record TokenRate : Type 0 where
  pub input_per_mtok : ℕ
  pub output_per_mtok : ℕ
  pub cache_write_multiplier : Option ℕ
  pub cache_read_multiplier : Option ℕ

pub record TokenUsage : Type 0 where
  pub input_tokens : ℕ
  pub output_tokens : ℕ
  pub cache_write_tokens : Option ℕ
  pub cache_read_tokens : Option ℕ

-- with ANTHROPIC_DEFAULTS
abbrev pub anthropic_rate : ℕ → ℕ → TokenRate
anthropic_rate i o = record {
  input_per_mtok = i;
  output_per_mtok = o;
  cache_write_multiplier = some 125;
  cache_read_multiplier = some 10;
}

abbrev pub openai_rate : ℕ → ℕ → TokenRate
openai_rate i o = record {
  input_per_mtok = i;
  output_per_mtok = o;
  cache_write_multiplier = none;
  cache_read_multiplier = some 10;
}

abbrev pub anthropic_rates : Dict TokenRate
anthropic_rates =
    ("claude-fable-5", anthropic_rate 100000 500000)
    ∷ ("claude-mythos-5", anthropic_rate 100000 500000)
    ∷ ("claude-opus-5", anthropic_rate 50000 250000)
    ∷ ("claude-opus-4-8", anthropic_rate 50000 250000)
    ∷ ("claude-opus-4-7", anthropic_rate 50000 250000)
    ∷ ("claude-opus-4-6", anthropic_rate 50000 250000)
    ∷ ("claude-sonnet-5", anthropic_rate 20000 100000)
    ∷ ("claude-sonnet-4-6", anthropic_rate 30000 150000)
    ∷ ("claude-haiku-4-5", anthropic_rate 10000 50000)
    ∷ []

abbrev pub openai_rates : Dict TokenRate
openai_rates =
    ("gpt-5", openai_rate 12500 100000)
    ∷ ("gpt-5-mini", openai_rate 2500 20000)
    ∷ ("gpt-5-nano", openai_rate 500 4000)
    ∷ ("gpt-5.4", openai_rate 25000 150000)
    ∷ ("gpt-5.4-mini", openai_rate 7500 45000)
    ∷ ("gpt-5.4-nano", openai_rate 2000 12500)
    ∷ ("gpt-5.5", openai_rate 50000 300000)
    ∷ ("gpt-5.6-luna", openai_rate 2000 12000)
    ∷ ("gpt-5.6-sol", openai_rate 40000 200000)
    ∷ ("gpt-5.6-terra", openai_rate 20000 120000)
    ∷ ("gpt-6-astra", openai_rate 100000 500000)
    ∷ []

abbrev pub prices : Dict (Dict TokenRate)
prices =
    ("anthropic", anthropic_rates)
    ∷ ("openai", openai_rates)
    ∷ ("openrouter", [])
    ∷ ("openai-codex", [])
    ∷ []

abbrev pub fallback_rate : TokenRate
fallback_rate = record {
  input_per_mtok = 150000;
  output_per_mtok = 750000;
  cache_write_multiplier = none;
  cache_read_multiplier = none;
}

-- `model.split("/").at(-1)`
unfoldable pub last_part : String → Option String
last_part String.[] = none
last_part (String.◌∷◌ c s) =
    let rest = last_part s in
    if code c == b'/' then elim rest [ none ↦ some s | some part ↦ some part ] else rest

abbrev pub bare : String → String
unfolding last_part
bare model = elim (last_part model) [ none ↦ model | some part ↦ part ]

-- `replace(/\./g, "-")`
unfoldable pub dashes : String → String
dashes String.[] = String.[]
dashes (String.◌∷◌ c s) =
    let rest = dashes s in if code c == b'.' then "-" <> rest else String.◌∷◌ c rest

abbrev pub is_digit : Char → Bool
is_digit c = leb b'0' (code c) && leb (code c) b'9'

-- `n` digits and no more
unfoldable pub digits : ℕ → String → Bool
digits n String.[] = n == 0
digits zero (String.◌∷◌ c s) = false
digits (suc n) (String.◌∷◌ c s) = is_digit c && digits n s

-- `replace(/-\d{8}$/, "")`
unfoldable pub undated : String → String
unfolding digits
undated String.[] = String.[]
undated (String.◌∷◌ c s) =
    let rest = undated s in if code c == b'-' && digits 8 s then String.[] else String.◌∷◌ c rest

abbrev pub normalized : String → String
unfolding dashes undated last_part
normalized model = undated (dashes (bare model))

-- the loop over the tables
unfoldable pub first_hit : Dict (Dict TokenRate) → String → Option TokenRate
unfolding lookup
first_hit [] model = none
first_hit ((provider, table) ∷ rest) model = elim (lookup model table) [
  | none ↦ first_hit rest model
  | some r ↦ some r
]

-- `PRICES[provider]?.[model]`
unfoldable pub exact_rate : String → String → Option TokenRate
unfolding lookup
exact_rate provider model = elim (lookup provider prices) [
  | none ↦ none
  | some table ↦ lookup model table
]

unfoldable pub lookup_rate : String → String → Option TokenRate
unfolding first_hit exact_rate
lookup_rate provider model = elim (exact_rate provider model) [
  | some r ↦ some r
  | none ↦ first_hit prices (normalized model)
]

abbrev pub hundredths : Option ℕ → ℕ
hundredths none = 100
hundredths (some m) = m

abbrev pub tokens : Option ℕ → ℕ
tokens none = 0
tokens (some n) = n

abbrev pub write_price : TokenRate → ℕ
write_price r = r.input_per_mtok * hundredths r.cache_write_multiplier / 100

abbrev pub read_price : TokenRate → ℕ
read_price r = r.input_per_mtok * hundredths r.cache_read_multiplier / 100

-- the sum of `computeCost`, in 10⁻¹⁰ dollars
unfoldable pub usage_cost : TokenRate → TokenUsage → ℕ
usage_cost r u =
    u.input_tokens * r.input_per_mtok
    + u.output_tokens * r.output_per_mtok
    + tokens u.cache_write_tokens * write_price r
    + tokens u.cache_read_tokens * read_price r

pub record CostBreakdown : Type 0 where
  pub cost : ℕ
  pub estimated : Bool
  pub rate : TokenRate

-- `roundUsdPrecise`, to nano-dollars
abbrev pub rounded : ℕ → ℕ
rounded cost = (cost + 5) / 10

unfoldable pub compute_cost : String → String → TokenUsage → CostBreakdown
unfolding lookup_rate usage_cost
compute_cost provider model u = elim (lookup_rate provider model) [
  | none ↦ record {
    cost = rounded (usage_cost fallback_rate u);
    estimated = true;
    rate = fallback_rate;
  }
  | some r ↦ record { cost = rounded (usage_cost r u); estimated = false; rate = r }
]
