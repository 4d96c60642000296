-- ===== src/Runtime/Admission.antt =====
-- What `startTurn` leaves in the runtime and its store on every branch.
use nimplex.Prelude.{
  String, ◌≡◌, ◌∙◌, sym, ap, subst, ◌⊎◌, inl, inr, true, false, none, some, [], ◌∷◌, ◌++◌,
  Bool-cases, eq_refl, ok, err, ok-injective, err-ne-ok,
}
use nimplex.Prelude.Dict.{lookup, insert, lookup-insert}
use nimplex.Store.Records.{
  StartTurnRequest, AcceptedTurnInput, StoredSession, StoredTurn, RuntimeError,
}
use nimplex.Store.Tables.{session}
use nimplex.Store.Events.{IsLog}
use nimplex.Sessions.Requests.{is_request, request_eq}
use nimplex.Sessions.Seeding.{SeedHost, Fresh, with_id, request_id_of, accepted, Seed}
use nimplex.Sessions.Plan.{plan_turn-Planned}
use nimplex.Sessions.Stored.{Seeded, stored-Seeded}
use nimplex.Runtime.Lifecycle.{Runtime, has_active, launch}
use nimplex.Runtime.Starting.{Started, retried, accepted_before, start_turn}
use nimplex.Runtime.Acceptance.{Retried, Launched, start_turn-branches}
use nimplex.Runtime.Once.{inputs-store_seed}

-- The session has accepted an equal request under this identity before: the answer names its turn.
pub record Repeated (session_id : String) (r : StartTurnRequest) (rt rt' : Runtime)
    (started : Started) : Type 0 where
  pub input : AcceptedTurnInput
  pub found : accepted_before session_id r rt.db ≡ some input
  pub equal : request_eq input.request r ≡ true
  pub answer : started ≡ record { run_id = input.turn_id; request_id = input.request_id }
  pub same : rt' ≡ rt

-- The request is new and its session idle: its turn is stored, listed, logged and active, and the
-- request is accepted under the identity that it is answered with.
pub record Admitted (host : SeedHost) (session_id : String) (r : StartTurnRequest) (fresh : Fresh)
    (rt rt' : Runtime) (started : Started) : Type 0 where
  pub unknown : accepted_before session_id r rt.db ≡ none
  pub idle : has_active session_id rt ≡ false
  pub turn : StoredTurn
  pub stored : Seeded host session_id (with_id r fresh) fresh rt.db rt'.db turn
  pub inputs :
      rt'.db.accepted_inputs
      ≡ rt.db.accepted_inputs ++ accepted session_id (with_id r fresh) fresh ∷ []
  pub active : lookup session_id rt'.active ≡ some fresh.id
  pub open_still : rt'.closing ≡ rt.closing
  pub answer : started ≡ record { run_id = fresh.id; request_id = request_id_of r fresh }

module _ (host : SeedHost) (session_id : String) (r : StartTurnRequest) (fresh : Fresh)
    (rt rt' : Runtime) (started : Started) where
  retried-equal :
      (a : AcceptedTurnInput)
      → retried a r ≡ ok started
      → (request_eq a.request r ≡ true)
        × (started ≡ record { run_id = a.turn_id; request_id = a.request_id })
  unfolding request_eq
  retried-equal a h = elim (Bool-cases (request_eq a.request r)) [
    | inl equal ↦ (equal, sym (ok-injective (rw equal at h)))
    | inr differs ↦ absurd (err-ne-ok (rw differs at h))
  ]

  Retried-Repeated : Retried session_id r rt rt' started → Repeated session_id r rt rt' started
  Retried-Repeated x =
      let (equal, answer) = retried-equal x.input x.answer in
      record { input = x.input; found = x.found; equal = equal; answer = answer; same = x.same }

  Launched-Admitted :
      IsLog rt.db
      → ((s : StoredSession) → session session_id rt.db ≡ ok s → s.id ≡ session_id)
      → Launched host session_id r fresh rt rt' started
      → Admitted host session_id r fresh rt rt' started
  unfolding launch
  Launched-Admitted h keyed l =
      let new =
        (plan_turn-Planned host session_id (with_id r fresh) rt.db fresh l.seed l.planned).new in
      let db : rt'.db ≡ l.db' = ap (λ (x : Runtime). x.db) l.next in
      let id : l.seed.turn.result.id ≡ fresh.id = ap (λ (x : Seed). x.turn.result.id) new in
      let place : l.seed.turn.session_id ≡ session_id = ap (λ (x : Seed). x.turn.session_id) new in
      record {
        unknown = l.unknown;
        idle = l.idle;
        turn = l.seed.turn;
        stored =
            subst (λ d. Seeded host session_id (with_id r fresh) fresh rt.db d l.seed.turn) (sym db)
              (stored-Seeded host session_id (with_id r fresh) fresh rt.db l.db' l.seed l.seed.turn
                h keyed l.planned l.stored);
        inputs =
            ap (λ d. d.accepted_inputs) db
            ∙ inputs-store_seed host l.seed rt.db l.db' l.stored
            ∙ ap (λ (x : Seed). rt.db.accepted_inputs ++ x.input ∷ []) new;
        active =
            ap (λ (x : Runtime). lookup session_id x.active) l.next
            ∙ ap (λ k. lookup session_id (insert k l.seed.turn.result.id rt.active)) place
            ∙ lookup-insert session_id session_id l.seed.turn.result.id rt.active
            ∙ rw (eq_refl session_id) (ap (λ i. some i) id);
        open_still = ap (λ (x : Runtime). x.closing) l.next;
        answer = l.answer ∙ ap (λ i. record { run_id = i; request_id = request_id_of r fresh }) id;
      }

module _ (host : SeedHost) (session_id : String) (r : StartTurnRequest) (fresh : Fresh)
    (rt : Runtime) where
  -- Where the log has no gaps and the session is stored under its identity: `startTurn` either throws
  -- and leaves the runtime and its store as they were, or returns. Then the runtime is open and the
  -- request fits the schema, and either an equal request was accepted before under its identity, the
  -- answer names that turn and nothing changes, or the request was unknown and the session idle, and
  -- its new running turn and files are stored, listed by the session and logged, the request is
  -- accepted, the turn is the session's active one, the answer names it, and no other turn, files
  -- or log has changed.
  pub start_turn-cases :
      IsLog rt.db
      → ((s : StoredSession) → session session_id rt.db ≡ ok s → s.id ≡ session_id)
      → ((e : RuntimeError) × (start_turn host session_id r fresh rt ≡ (err e, rt)))
        ⊎ ((rt' : Runtime) × (started : Started) × (start_turn host session_id r fresh rt
              ≡ (ok started, rt'))
            × (rt.closing ≡ false)
            × (is_request r ≡ true)
            × (Repeated session_id r rt rt' started
                ⊎ Admitted host session_id r fresh rt rt' started))
  start_turn-cases h keyed = elim (start_turn-branches host session_id r fresh rt) [
    | inl thrown ↦ inl thrown
    | inr (rt', started, returned, still_open, fits, inl old) ↦ inr (
      rt',
      started,
      returned,
      still_open,
      fits,
      inl (Retried-Repeated host session_id r fresh rt rt' started old),
    )
    | inr (rt', started, returned, still_open, fits, inr new) ↦ inr (
      rt',
      started,
      returned,
      still_open,
      fits,
      inr (Launched-Admitted host session_id r fresh rt rt' started h keyed new),
    )
  ]
