-- ===== src/Runtime/Acceptance.antt =====
-- What `startTurn` does on every branch, and that a request is accepted once.
use nimplex.Prelude.{
  String, ◌≡◌, refl, ◌∙◌, sym, ap, ◌⊎◌, inl, inr, true, false, none, some, Bool-cases, Option-cases,
  Result-cases, ok, err, >>=-eq-ok, ok-injective,
}
use nimplex.Store.Records.{
  StartTurnRequest, AcceptedTurnInput, StoredTurn, RuntimeError, active_turn, runtime_closed,
  refused,
}
use nimplex.Store.Tables.{
  Database, transaction, settle, save_accepted_input, save_workspace, save_turn, save_session,
}
use nimplex.Sessions.Requests.{is_request, resolve_local_model}
use nimplex.Sessions.Seeding.{
  SeedHost, Fresh, with_id, request_id_of, Seed, plan_turn, store_seed, seed_turn,
}
use nimplex.Runtime.Lifecycle.{Runtime, has_active, launch}
use nimplex.Runtime.Starting.{Started, retried, accepted_before, start_new, start_turn}

-- A start that has found the request accepted before.
pub record Retried (session_id : String) (r : StartTurnRequest) (rt rt' : Runtime)
    (started : Started) : Type 0 where
  pub input : AcceptedTurnInput
  pub found : accepted_before session_id r rt.db ≡ some input
  pub answer : retried input r ≡ ok started
  pub same : rt' ≡ rt

-- A start that has seeded and launched a turn.
pub record Launched (host : SeedHost) (session_id : String) (r : StartTurnRequest) (fresh : Fresh)
    (rt rt' : Runtime) (started : Started) : Type 0 where
  pub unknown : accepted_before session_id r rt.db ≡ none
  pub idle : has_active session_id rt ≡ false
  pub seed : Seed
  pub db' : Database
  pub planned : plan_turn host session_id (with_id r fresh) fresh rt.db ≡ ok seed
  pub stored : store_seed host seed rt.db ≡ ok (seed.turn, db')
  pub next : rt' ≡ launch seed.turn (record rt { db = db' })
  pub answer : started ≡ record { run_id = seed.turn.result.id; request_id = request_id_of r fresh }

module _ (host : SeedHost) (session_id : String) (r : StartTurnRequest) (fresh : Fresh)
    (rt : Runtime) where
  store_seed-turn :
      (seed : Seed) (db : Database) {t : StoredTurn} {db' : Database}
      → store_seed host seed db ≡ ok (t, db')
      → t ≡ seed.turn
  unfolding store_seed
  store_seed-turn seed db h =
      let (d, saved, h1) =
        >>=-eq-ok
          (save_accepted_input seed.input (
            save_workspace seed.turn.result.id seed.workspace
              (save_turn seed.turn (save_session seed.session db))))
          _ h in
      sym (ap (λ p. p.0) (ok-injective h1))

  seed_turn-invalid :
      {e : RuntimeError}
      → plan_turn host session_id (with_id r fresh) fresh rt.db ≡ err e
      → seed_turn host false session_id (with_id r fresh) fresh rt.db ≡ (err e, rt.db)
  unfolding seed_turn
  seed_turn-invalid invalid = rw (invalid, seed_turn)

  seed_turn-planned :
      {seed : Seed}
      → plan_turn host session_id (with_id r fresh) fresh rt.db ≡ ok seed
      → seed_turn host false session_id (with_id r fresh) fresh rt.db
        ≡ settle rt.db (store_seed host seed rt.db)
  unfolding seed_turn transaction
  seed_turn-planned planned = rw (planned, seed_turn)

  -- A new request either throws and changes nothing, or is seeded and launched.
  start_new-cases :
      accepted_before session_id r rt.db ≡ none
      → ((e : RuntimeError) × (start_new host session_id r fresh rt ≡ (err e, rt)))
        ⊎ ((rt' : Runtime) × (started : Started) × (start_new host session_id r fresh rt
              ≡ (ok started, rt'))
            × Launched host session_id r fresh rt rt' started)
  unfolding start_new launch
  start_new-cases unknown = elim (Bool-cases (has_active session_id rt)) [
    | inl busy ↦ inl (active_turn, rw busy refl)
    | inr idle ↦ elim (Result-cases (resolve_local_model host.catalog r.model)) [
      | inl (e, unsupported) ↦ inl (e, rw (idle, unsupported) refl)
      | inr (selected, supported) ↦
          elim (Result-cases (plan_turn host session_id (with_id r fresh) fresh rt.db)) [
            | inl (e, invalid) ↦ inl (e, rw (idle, supported, seed_turn-invalid invalid) refl)
            | inr (seed, planned) ↦ elim (Result-cases (store_seed host seed rt.db)) [
              | inl (e, failed) ↦
                  inl (e, rw (idle, supported, seed_turn-planned planned, failed) refl)
              | inr ((t, db'), stored) ↦
                  let same : t ≡ seed.turn = store_seed-turn seed rt.db stored in
                  let stored' : store_seed host seed rt.db ≡ ok (seed.turn, db') =
                    rw same at stored in
                  inr (
                    launch seed.turn (record rt { db = db' }),
                    record { run_id = seed.turn.result.id; request_id = request_id_of r fresh },
                    rw (idle, supported, seed_turn-planned planned, stored') refl,
                    record {
                      unknown = unknown;
                      idle = idle;
                      seed = seed;
                      db' = db';
                      planned = planned;
                      stored = stored';
                      next = refl;
                      answer = refl;
                    },
                  )
            ]
          ]
    ]
  ]

  passes :
      rt.closing ≡ false
      → is_request r ≡ true
      → accepted_before session_id r rt.db ≡ none
      → start_turn host session_id r fresh rt ≡ start_new host session_id r fresh rt
  unfolding start_turn
  passes still_open fits unknown = simp (still_open, fits, unknown)

  pub meets :
      {a : AcceptedTurnInput}
      → rt.closing ≡ false
      → is_request r ≡ true
      → accepted_before session_id r rt.db ≡ some a
      → start_turn host session_id r fresh rt ≡ (retried a r, rt)
  unfolding start_turn
  meets still_open fits found = simp (still_open, fits, found)

  -- `startTurn` either throws and leaves the runtime and its store as they were, or returns: then the
  -- runtime is open and the request fits the schema, and it was found accepted, or was launched.
  pub start_turn-branches :
      ((e : RuntimeError) × (start_turn host session_id r fresh rt ≡ (err e, rt)))
      ⊎ ((rt' : Runtime) × (started : Started) × (start_turn host session_id r fresh rt
            ≡ (ok started, rt'))
          × (rt.closing ≡ false)
          × (is_request r ≡ true)
          × (Retried session_id r rt rt' started ⊎ Launched host session_id r fresh rt rt' started))
  unfolding start_turn
  start_turn-branches = elim (Bool-cases rt.closing) [
    | inl closing ↦ inl (runtime_closed, simp closing)
    | inr still_open ↦ elim (Bool-cases (is_request r)) [
      | inr malformed ↦ inl (refused "Invalid request", simp (still_open, malformed))
      | inl fits ↦ elim (Option-cases (accepted_before session_id r rt.db)) [
        | inr (a, found) ↦ elim (Result-cases (retried a r)) [
          | inl (e, differs) ↦ inl (e, meets still_open fits found ∙ ap (λ x. (x, rt)) differs)
          | inr (started, answer) ↦ inr (
            rt,
            started,
            meets still_open fits found ∙ ap (λ x. (x, rt)) answer,
            still_open,
            fits,
            inl (record { input = a; found = found; answer = answer; same = refl }),
          )
        ]
        | inl unknown ↦ elim (start_new-cases unknown) [
          | inl (e, thrown) ↦ inl (e, passes still_open fits unknown ∙ thrown)
          | inr (rt', started, returned, launched) ↦ inr (
            rt',
            started,
            passes still_open fits unknown ∙ returned,
            still_open,
            fits,
            inr launched,
          )
        ]
      ]
    ]
  ]
