-- ===== src/Runtime/Starting.antt =====
-- `startTurn`: the acceptance of a request, once for each identity.
use nimplex.Prelude.{String, false, not, Option, none, some, if◌then◌else◌, Result, ok, err}
use nimplex.Store.Records.{
  StartTurnRequest, AcceptedTurnInput, StoredTurn, RuntimeError, runtime_closed, active_turn,
  request_reused, refused,
}
use nimplex.Store.Tables.{Database, accepted_input}
use nimplex.Sessions.Requests.{is_request, request_eq, resolve_local_model}
use nimplex.Sessions.Seeding.{SeedHost, Fresh, with_id, request_id_of, seed_turn}
use nimplex.Runtime.Lifecycle.{Runtime, has_active, launch}

-- `{ runId, requestId }`
pub record Started : Type 0 where
  pub run_id : String
  pub request_id : String

-- the answer to a request that was accepted before
abbrev pub retried : AcceptedTurnInput → StartTurnRequest → Result RuntimeError Started
unfolding request_eq
retried a r =
    if request_eq a.request r
    then ok (record { run_id = a.turn_id; request_id = a.request_id })
    else err request_reused

-- what the store has accepted under the request's identity, if it has one
abbrev pub accepted_before : String → StartTurnRequest → Database → Option AcceptedTurnInput
unfolding accepted_input
accepted_before session_id r db = elim r.request_id [
  | none ↦ none
  | some q ↦ accepted_input session_id q db
]

module _ (host : SeedHost) where
  abbrev pub launched :
      StartTurnRequest
      → Fresh
      → Runtime
      → Result RuntimeError StoredTurn × Database
      → Result RuntimeError Started × Runtime
  unfolding launch
  launched r fresh rt (err e, db) = (err e, record rt { db = db })
  launched r fresh rt (ok t, db) = (
    ok (record { run_id = t.result.id; request_id = request_id_of r fresh }),
    launch t (record rt { db = db }),
  )

  -- the rest of `startTurn`, for a request that is new
  unfoldable pub start_new :
      String → StartTurnRequest → Fresh → Runtime → Result RuntimeError Started × Runtime
  unfolding seed_turn resolve_local_model
  start_new session_id r fresh rt =
      if has_active session_id rt
      then (err active_turn, rt)
      else elim (resolve_local_model host.catalog r.model) [
        | err e ↦ (err e, rt)
        | ok selected ↦
            launched r fresh rt (seed_turn host false session_id (with_id r fresh) fresh rt.db)
      ]

  unfoldable pub start_turn :
      String → StartTurnRequest → Fresh → Runtime → Result RuntimeError Started × Runtime
  unfolding start_new is_request
  start_turn session_id r fresh rt =
      if rt.closing
      then (err runtime_closed, rt)
      else if not (is_request r)
      then (err (refused "Invalid request"), rt)
      else elim (accepted_before session_id r rt.db) [
        | some a ↦ (retried a r, rt)
        | none ↦ start_new session_id r fresh rt
      ]
