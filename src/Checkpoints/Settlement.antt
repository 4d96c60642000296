-- ===== src/Checkpoints/Settlement.antt =====
-- Settling a model call: at most once, and by its cost rounded up to a micro-dollar.
use nimplex.Prelude.{
  ℕ, ◌+◌, ◌*◌, ◌≤◌, ◌<◌, String, ◌≡◌, ◌∙◌, sym, subst, ◌⊎◌, inl, inr, Bool, true, false, some, List,
  [], ◌∷◌, ◌++◌, any, any-append, Bool-cases, ok, >>=-eq-ok, ok-injective, err-ne-ok, arith,
  or-true, str_eq, eq_refl, if◌then◌else◌,
}
use nimplex.Prelude.Dict.{lookup, lookup-insert}
use nimplex.Store.Records.{ExecutorEvent, spend_updated, StoredTurn}
use nimplex.Store.Tables.{Database, turn, save_turn, append}
use nimplex.Store.Events.{IsLog, log, log-append, log-save_turn, save_turn-IsLog, turns-append}
use nimplex.Checkpoints.Steps.{
  Host, cost, rounded_cost, is_attempt, is_settled, add_spent, settle_model, commit_model_in,
}

-- The rounded cost covers the cost, up to the slack of 10⁻¹⁴ dollars that absorbs float noise, and
-- is less than a micro-dollar above it.
pub rounded_cost_bounds :
    (n : ℕ) → (n ≤ rounded_cost n * 100000000 + 1) × (rounded_cost n * 100000000 < n + 100000000)
unfolding rounded_cost
rounded_cost_bounds n = omega arith

module _ (host : Host) (id call_id : String) where
  -- the event that settles the call, after the ones of the response
  abbrev settling : List ExecutorEvent → StoredTurn → ℕ → Bool → List ExecutorEvent
  settling es t n uncertain =
      es ++ spend_updated call_id (t.result.spent_usd + rounded_cost n) uncertain ∷ []

  -- What a settlement that is not a repetition does.
  abbrev pub Settles : List ExecutorEvent → ℕ → Bool → Database → Database → Type 0
  Settles es n uncertain db db' =
      (t : StoredTurn) × (turn id db ≡ ok t)
      × (log id db' ≡ log id db ++ settling es t n uncertain)
      × ((j : String)
          → lookup j db'.turns ≡ (
              if str_eq t.result.id j
              then some (add_spent t (rounded_cost n))
              else lookup j db.turns))

  settle_model-Settles :
      (es : List ExecutorEvent) (n : ℕ) (uncertain : Bool) (db db' : Database)
      → IsLog db
      → settle_model host id call_id es n uncertain db ≡ ok db'
      → IsLog db' × Settles es n uncertain db db'
  unfolding settle_model
  settle_model-Settles es n uncertain db db' h e =
      let (t, found, e1) = >>=-eq-ok (turn id db) _ e in
      let t' = add_spent t (rounded_cost n) in
      let grown = append host.now id (settling es t n uncertain) db in
      let (dense, longer, _) = log-append host.now id (settling es t n uncertain) db h in
      rw (← ok-injective e1) (
        save_turn-IsLog t' grown dense,
        (
          t,
          found,
          log-save_turn t' grown id ∙ longer,
          λ j.
              unfold save_turn in
              rw (lookup-insert t.result.id j t' grown.turns, turns-append host.now id),
        ),
      )

  settled-settling :
      (es : List ExecutorEvent) (t : StoredTurn) (n : ℕ) (uncertain : Bool)
      → any (is_settled call_id) (settling es t n uncertain) ≡ true
  settled-settling es t n uncertain = any-append (is_settled call_id) es _ ∙ simp (eq_refl, or-true)

  -- Where the log has no gaps, a settlement that returns either finds the call settled and changes
  -- nothing, or finds it attempted and not settled, appends the response's events and one
  -- settlement, and raises what the turn has spent by the rounded cost; no other turn changes.
  pub commit_model_in-cases :
      (es : List ExecutorEvent) (n : ℕ) (uncertain : Bool) (db db' : Database)
      → IsLog db
      → commit_model_in host id call_id es (cost n) uncertain db ≡ ok db'
      → (any (is_attempt call_id) (log id db) ≡ true)
        × ((any (is_settled call_id) (log id db) ≡ true) × (db' ≡ db)
            ⊎ (any (is_settled call_id) (log id db) ≡ false) × Settles es n uncertain db db')
  unfolding commit_model_in
  commit_model_in-cases es n uncertain db db' h e =
      elim (Bool-cases (any (is_attempt call_id) (log id db))) [
        | inr unknown ↦ absurd (err-ne-ok (rw unknown at e))
        | inl known ↦
            let e1 = rw known at e in
            elim (Bool-cases (any (is_settled call_id) (log id db))) [
              | inl settled ↦ (known, inl (settled, sym (ok-injective (rw settled at e1))))
              | inr fresh ↦ (
                known,
                inr (fresh, (settle_model-Settles es n uncertain db db' h (rw fresh at e1)).1),
              )
            ]
      ]

  pub commit_model_in-IsLog :
      (es : List ExecutorEvent) (n : ℕ) (uncertain : Bool) (db db' : Database)
      → IsLog db
      → commit_model_in host id call_id es (cost n) uncertain db ≡ ok db'
      → IsLog db'
  unfolding commit_model_in
  commit_model_in-IsLog es n uncertain db db' h e =
      elim (Bool-cases (any (is_attempt call_id) (log id db))) [
        | inr unknown ↦ absurd (err-ne-ok (rw unknown at e))
        | inl known ↦
            let e1 = rw known at e in
            elim (Bool-cases (any (is_settled call_id) (log id db))) [
              | inl settled ↦ subst IsLog (ok-injective (rw settled at e1)) h
              | inr fresh ↦ (settle_model-Settles es n uncertain db db' h (rw fresh at e1)).0
            ]
      ]

  -- Once a call is settled, settling it again with any events, cost or uncertainty returns and
  -- changes nothing, where the log has no gaps.
  pub commit_model_in-again :
      (es fs : List ExecutorEvent) (n m : ℕ) (uncertain doubtful : Bool) (db db' : Database)
      → IsLog db
      → commit_model_in host id call_id es (cost n) uncertain db ≡ ok db'
      → commit_model_in host id call_id fs (cost m) doubtful db' ≡ ok db'
  commit_model_in-again es fs n m uncertain doubtful db db' h e =
      let (known, done) = commit_model_in-cases es n uncertain db db' h e in
      elim done [
        | inl (settled, same) ↦ rw same (unfold commit_model_in in rw (known, settled))
        | inr (fresh, (t, found, longer, others)) ↦
            let known' : any (is_attempt call_id) (log id db') ≡ true =
              rw (longer, any-append (is_attempt call_id), known) in
            let settled' : any (is_settled call_id) (log id db') ≡ true =
              rw (longer, any-append (is_settled call_id), settled-settling es t n uncertain)
                (or-true _) in
            unfold commit_model_in in rw (known', settled')
      ]
