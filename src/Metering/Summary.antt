-- ===== src/Metering/Summary.antt =====
-- `sandboxUsageSummary`: the usage that a session shows is the sum of its ledger.
use nimplex.Prelude.{
  ℕ, ◌+◌, String, ◌≡◌, refl, ◌∙◌, sym, ap, Bool, true, false, ◌&&◌, ◌||◌, Option, none, some, List,
  [], ◌∷◌, any, all, if◌then◌else◌, Option-cases, Bool-cases, subst, inl, inr, ok, arith,
}
use nimplex.Store.Records.{StoredSession, Sandbox, SandboxUsageRecord, SandboxUsageSummary}
use nimplex.Store.Tables.{Database, session}
use nimplex.Metering.Rates.{is_free}
use nimplex.Metering.Usage.{no_usage, or_else, is_some, add_to_summary, unpriced}
use nimplex.Metering.Ledger.{IsMetered, ledger_of, total_from, session-found}

abbrev pub is_free_now : Option ℕ → Option Sandbox → Bool
is_free_now none provider = true
is_free_now (some since) none = false
is_free_now (some since) (some p) = is_free p

-- The settled totals, and the start of a running interval.
pub record ShownUsage : Type 0 where
  pub totals : SandboxUsageSummary
  pub running_since : Option ℕ

abbrev shown_totals : StoredSession → SandboxUsageSummary → SandboxUsageSummary
shown_totals s settled = record settled {
  uncertain = settled.uncertain || s.running_uncertain;
  free = settled.free && is_free_now s.running_since s.sandbox_provider;
}

abbrev shown_usage : StoredSession → ShownUsage
shown_usage s = record {
  totals = shown_totals s (or_else no_usage s.usage_summary);
  running_since = s.running_since;
}

unfoldable pub sandbox_usage_summary : StoredSession → Option ShownUsage
sandbox_usage_summary s =
    if is_some s.usage_summary || is_some s.running_since then some (shown_usage s) else none

-- the sum of a number over some records
abbrev pub sum_of : (SandboxUsageRecord → ℕ) → List SandboxUsageRecord → ℕ
sum_of f [] = 0
sum_of f (r ∷ rs) = f r + sum_of f rs

module _ (rs : List SandboxUsageRecord) where
  -- Totals that are the sums over the records, on top of other totals.
  pub record IsSum (before after : SandboxUsageSummary) : Type 0 where
    pub usd : after.usd ≡ before.usd + sum_of (λ r. or_else 0 r.cost) rs
    pub milliseconds : after.milliseconds ≡ before.milliseconds + sum_of (λ r. r.milliseconds) rs
    pub unpriced : after.unpriced_milliseconds ≡ before.unpriced_milliseconds + sum_of unpriced rs
    pub uncertain : after.uncertain ≡ (before.uncertain || any (λ r. r.uncertain) rs)
    pub free : after.free ≡ (before.free && all (λ r. is_free r.provider) rs)

or_false : (b : Bool) → b ≡ (b || false)
or_false true = refl
or_false false = refl

and_true : (b : Bool) → b ≡ (b && true)
and_true true = refl
and_true false = refl

or_assoc : (a b c : Bool) → ((a || b) || c) ≡ (a || (b || c))
or_assoc true b c = refl
or_assoc false b c = refl

and_assoc : (a b c : Bool) → ((a && b) && c) ≡ (a && (b && c))
and_assoc true b c = refl
and_assoc false b c = refl

total_from-IsSum :
    (rs : List SandboxUsageRecord) (summary : Option SandboxUsageSummary)
    → IsSum rs (or_else no_usage summary) (or_else no_usage (total_from summary rs))
unfolding total_from add_to_summary
total_from-IsSum [] summary = record {
  usd = omega arith;
  milliseconds = omega arith;
  unpriced = omega arith;
  uncertain = or_false _;
  free = and_true _;
}
total_from-IsSum (r ∷ rs) summary =
    let rest = total_from-IsSum rs (some (add_to_summary summary r)) in
    record {
      usd = omega (arith, rest.usd);
      milliseconds = omega (arith, rest.milliseconds);
      unpriced = omega (arith, rest.unpriced);
      uncertain =
          rest.uncertain
          ∙ or_assoc (or_else no_usage summary).uncertain r.uncertain (any (λ x. x.uncertain) rs);
      free =
          rest.free
          ∙ and_assoc (or_else no_usage summary).free (is_free r.provider)
              (all (λ x. is_free x.provider) rs);
    }

total_from-some :
    (rs : List SandboxUsageRecord) (t : SandboxUsageSummary)
    → (u : SandboxUsageSummary) × (total_from (some t) rs ≡ some u)
unfolding total_from
total_from-some [] t = (t, refl)
total_from-some (r ∷ rs) t = total_from-some rs (add_to_summary (some t) r)

total_from-none : (rs : List SandboxUsageRecord) → total_from none rs ≡ none → rs ≡ []
unfolding total_from
total_from-none [] h = refl
total_from-none (r ∷ rs) h = let (u, some_total) = total_from-some rs (add_to_summary none r) in cc

-- What a session shows: the sums over its ledger, and what its open interval adds.
pub record Shows (s : StoredSession) (rs : List SandboxUsageRecord) (v : ShownUsage) : Type 0 where
  pub usd : v.totals.usd ≡ sum_of (λ r. or_else 0 r.cost) rs
  pub milliseconds : v.totals.milliseconds ≡ sum_of (λ r. r.milliseconds) rs
  pub unpriced : v.totals.unpriced_milliseconds ≡ sum_of unpriced rs
  pub uncertain : v.totals.uncertain ≡ (any (λ r. r.uncertain) rs || s.running_uncertain)
  pub free :
      v.totals.free
      ≡ (all (λ r. is_free r.provider) rs && is_free_now s.running_since s.sandbox_provider)
  pub running_since : v.running_since ≡ s.running_since

shown-Shows :
    (s : StoredSession) (rs : List SandboxUsageRecord) (v : ShownUsage)
    → s.usage_summary ≡ total_from none rs
    → sandbox_usage_summary s ≡ some v
    → Shows s rs v
unfolding sandbox_usage_summary
shown-Shows s rs v total shown =
    let settled = ap (or_else no_usage) total in
    let sum = total_from-IsSum rs none in
    let usd = ap (λ t. t.usd) settled ∙ sum.usd in
    let milliseconds = ap (λ t. t.milliseconds) settled ∙ sum.milliseconds in
    let unpriced_ms = ap (λ t. t.unpriced_milliseconds) settled ∙ sum.unpriced in
    elim (Bool-cases (is_some s.usage_summary || is_some s.running_since)) [
      | inl some_usage ↦
          let same : shown_usage s ≡ v = cc (rw some_usage at shown) in
          subst (Shows s rs) same (record {
            usd = omega (arith, usd);
            milliseconds = omega (arith, milliseconds);
            unpriced = omega (arith, unpriced_ms);
            uncertain =
                ap (λ b. b || s.running_uncertain) (ap (λ t. t.uncertain) settled ∙ sum.uncertain);
            free =
                ap (λ b. b && is_free_now s.running_since s.sandbox_provider)
                  (ap (λ t. t.free) settled ∙ sum.free);
            running_since = refl;
          })
      | inr nothing ↦ cc (rw nothing at shown)
    ]

hidden-empty :
    (s : StoredSession)
    → sandbox_usage_summary s ≡ none
    → (s.usage_summary ≡ none) × (s.running_since ≡ none)
unfolding sandbox_usage_summary
hidden-empty s hidden = elim (Option-cases s.usage_summary) [
  | inr (t, settled) ↦ cc (rw settled at hidden)
  | inl unsettled ↦ elim (Option-cases s.running_since) [
    | inr (at, open_since) ↦ cc (rw (unsettled, open_since) at hidden)
    | inl idle ↦ (unsettled, idle)
  ]
]

module _ (id : String) (s : StoredSession) (db : Database) (h : IsMetered db)
    (found : session id db ≡ ok s) where
  -- Where the running totals agree with the ledger: the usage that a session shows has the sums over
  -- the session's ledger, is uncertain where a record or the open interval is, and free where all of
  -- them are; a session shows none only where its ledger is empty and no interval is open.
  pub sandbox_usage_summary_lem :
      ((v : ShownUsage) → sandbox_usage_summary s ≡ some v → Shows s (ledger_of id db.ledger) v)
      × (sandbox_usage_summary s ≡ none → (ledger_of id db.ledger ≡ []) × (s.running_since ≡ none))
  unfolding sandbox_usage_summary
  sandbox_usage_summary_lem =
      let total = (h id s (session-found id db s found)).1 in
      (
        λ v shown. shown-Shows s (ledger_of id db.ledger) v total shown,
        λ hidden.
            let (unsettled, idle) = hidden-empty s hidden in
            (total_from-none (ledger_of id db.ledger) (sym total ∙ unsettled), idle),
      )
