-- ===== src/Pricing/Fallback.antt =====
-- A listed rate is below the fallback's, so an estimate is never below the price.
use nimplex.Prelude.{
  ℕ, ◌≤◌, String, ◌≡◌, refl, inl, inr, Bool, true, ◌&&◌, some, [], ◌∷◌, All, Bool-cases,
  Option-cases, leb, leb→le, and-eq-true, all, str_eq, subst, arith,
}
use native.Mathlib.Nat.{mul-le-mul_left, mul-le-mul_right}
use nimplex.Prelude.Dict.{Dict, lookup}
use nimplex.Pricing.Rates.{
  TokenRate, TokenUsage, anthropic_rates, openai_rates, prices, fallback_rate, first_hit,
  exact_rate, normalized, lookup_rate, write_price, read_price, tokens, usage_cost, rounded,
  compute_cost,
}

-- no price above the fallback's
abbrev IsListed : TokenRate → Type 0
IsListed r =
    (r.input_per_mtok ≤ fallback_rate.input_per_mtok)
    × (r.output_per_mtok ≤ fallback_rate.output_per_mtok)
    × (write_price r ≤ write_price fallback_rate)
    × (read_price r ≤ read_price fallback_rate)

lookup-All :
    {V : Type 0} (P : V → Type 0) (k : String) (d : Dict V) (v : V)
    → All (λ e. P e.1) d
    → lookup k d ≡ some v
    → P v
unfolding lookup
lookup-All P k [] v h e = cc
lookup-All P k ((j, w) ∷ d) v h e = elim (Bool-cases (str_eq j k)) [
  | inl here ↦ let same : w ≡ v = cc (rw here at e) in subst P same h.0
  | inr away ↦ lookup-All P k d v h.1 (rw away at e)
]

abbrev AllListed : Dict TokenRate → Type 0
AllListed d = All (λ e. IsListed e.1) d

abbrev is_listed : TokenRate → Bool
is_listed r =
    leb r.input_per_mtok fallback_rate.input_per_mtok
    && leb r.output_per_mtok fallback_rate.output_per_mtok
    && leb (write_price r) (write_price fallback_rate)
    && leb (read_price r) (read_price fallback_rate)

is_listed-IsListed : (r : TokenRate) → is_listed r ≡ true → IsListed r
is_listed-IsListed r h =
    let i = leb r.input_per_mtok fallback_rate.input_per_mtok in
    let o = leb r.output_per_mtok fallback_rate.output_per_mtok in
    let w = leb (write_price r) (write_price fallback_rate) in
    let d = leb (read_price r) (read_price fallback_rate) in
    let (h1, read) = and-eq-true (i && o && w) d h in
    let (h2, write) = and-eq-true (i && o) w h1 in
    let (input, output) = and-eq-true i o h2 in
    (leb→le _ _ input, leb→le _ _ output, leb→le _ _ write, leb→le _ _ read)

listed-AllListed : (d : Dict TokenRate) → all (λ e. is_listed e.1) d ≡ true → AllListed d
listed-AllListed [] h = tt
listed-AllListed ((model, r) ∷ rest) h =
    let (here, below) = and-eq-true (is_listed r) (all (λ e. is_listed e.1) rest) h in
    (is_listed-IsListed r here, listed-AllListed rest below)

prices-AllListed : All (λ e. AllListed e.1) prices
prices-AllListed =
    (listed-AllListed anthropic_rates refl, (listed-AllListed openai_rates refl, (tt, (tt, tt))))

first_hit-IsListed :
    (d : Dict (Dict TokenRate)) (model : String) (r : TokenRate)
    → All (λ e. AllListed e.1) d
    → first_hit d model ≡ some r
    → IsListed r
unfolding first_hit
first_hit-IsListed [] model r h e = cc
first_hit-IsListed ((p, table) ∷ rest) model r h e = elim (Option-cases (lookup model table)) [
  | inl missing ↦ first_hit-IsListed rest model r h.1 (rw (missing, first_hit) at e)
  | inr (v, found) ↦
      let same : v ≡ r = cc (rw (found, first_hit) at e) in
      subst IsListed same (lookup-All IsListed model table v h.0 found)
]

exact_rate-IsListed :
    (provider model : String) (r : TokenRate) → exact_rate provider model ≡ some r → IsListed r
unfolding exact_rate
exact_rate-IsListed provider model r e = elim (Option-cases (lookup provider prices)) [
  | inl missing ↦ cc (rw (missing, exact_rate) at e)
  | inr (table, found) ↦
      lookup-All IsListed model table r
        (lookup-All AllListed provider prices table prices-AllListed found)
        (rw (found, exact_rate) at e)
]

lookup_rate-IsListed :
    (provider model : String) (r : TokenRate) → lookup_rate provider model ≡ some r → IsListed r
unfolding lookup_rate
lookup_rate-IsListed provider model r e = elim (Option-cases (exact_rate provider model)) [
  | inr (v, found) ↦
      let same : v ≡ r = cc (rw (found, lookup_rate) at e) in
      subst IsListed same (exact_rate-IsListed provider model v found)
  | inl missing ↦
      first_hit-IsListed prices (normalized model) r prices-AllListed
        (rw (missing, lookup_rate) at e)
]

usage_cost-IsListed :
    (r : TokenRate) (u : TokenUsage) → IsListed r → usage_cost r u ≤ usage_cost fallback_rate u
unfolding usage_cost
usage_cost-IsListed r u h = omega (
  arith,
  mul-le-mul_left u.input_tokens h.0,
  mul-le-mul_left u.output_tokens h.1,
  mul-le-mul_left (tokens u.cache_write_tokens) h.2,
  mul-le-mul_left (tokens u.cache_read_tokens) h.3,
)

abbrev pub IsLess : TokenUsage → TokenUsage → Type 0
IsLess u v =
    (u.input_tokens ≤ v.input_tokens)
    × (u.output_tokens ≤ v.output_tokens)
    × (tokens u.cache_write_tokens ≤ tokens v.cache_write_tokens)
    × (tokens u.cache_read_tokens ≤ tokens v.cache_read_tokens)

usage_cost-IsLess :
    (r : TokenRate) (u v : TokenUsage) → IsLess u v → usage_cost r u ≤ usage_cost r v
unfolding usage_cost
usage_cost-IsLess r u v h = omega (
  arith,
  mul-le-mul_right r.input_per_mtok h.0,
  mul-le-mul_right r.output_per_mtok h.1,
  mul-le-mul_right (write_price r) h.2,
  mul-le-mul_right (read_price r) h.3,
)

rounded_le : (a b : ℕ) → a ≤ b → rounded a ≤ rounded b
rounded_le a b h = omega arith

-- The cost of a usage is never above its cost at the fallback rate, which is what the estimate for a
-- model without a listed rate is, and no more tokens of any kind never cost more.
pub compute_cost-le :
    (provider model : String) (u v : TokenUsage)
    → ((compute_cost provider model u).cost ≤ rounded (usage_cost fallback_rate u))
      × ((compute_cost provider model u).estimated ≡ true
          → (compute_cost provider model u).cost ≡ rounded (usage_cost fallback_rate u))
      × (IsLess u v → (compute_cost provider model u).cost ≤ (compute_cost provider model v).cost)
unfolding compute_cost
compute_cost-le provider model u v = elim (Option-cases (lookup_rate provider model)) [
  | inl unlisted ↦
      rw (unlisted, compute_cost)
        (omega arith, λ e. refl, λ less. rounded_le _ _ (usage_cost-IsLess fallback_rate u v less))
  | inr (r, listed) ↦
      rw (listed, compute_cost)
        (
          rounded_le _ _ (usage_cost-IsListed r u (lookup_rate-IsListed provider model r listed)),
          λ e. cc,
          λ less. rounded_le _ _ (usage_cost-IsLess r u v less),
        )
]
