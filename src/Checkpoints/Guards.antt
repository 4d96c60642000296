-- ===== src/Checkpoints/Guards.antt =====
-- Once a turn is no longer running, no step but a settlement is recorded for it.
use nimplex.Prelude.{String, ◌≡◌, ◌≢◌, refl, false, List, err, ok}
use nimplex.Prelude.Dict.{Dict}
use nimplex.Status.{RunStatus, running, status_eq}
use nimplex.Storage.Records.{Json}
use nimplex.Store.Records.{Bytes, EntryMetadata, ExecutorEvent, StoredTurn, turn_is}
use nimplex.Store.Tables.{Database, turn, transaction}
use nimplex.Checkpoints.Steps.{
  Host, active_turn, start_model_in, commit_tool_in, checkpoint_context, start_model, start_tool,
  commit_tool,
}

status_eq-running : (s : RunStatus) → s ≢ running → status_eq s running ≡ false
status_eq-running running h = absurd (h refl)
status_eq-running _ h = refl

module _ (host : Host) (id : String) (t : StoredTurn) (db : Database) (found : turn id db ≡ ok t)
    (stopped : t.result.status ≢ running) where
  active_turn-stopped : active_turn id db ≡ err (turn_is t.result.status)
  unfolding active_turn
  active_turn-stopped = rw (found, status_eq-running t.result.status stopped)

  -- For a turn that is not running, a context checkpoint, the start of a model call, the start of a
  -- tool and the commit of a tool, with any arguments, all throw the turn's status and change
  -- nothing, in a store that is open.
  pub steps-stopped :
      (tool_id name call_id : String) (checkpoint : Json) (es : List ExecutorEvent)
      (files : Dict Bytes) (metadata : Dict EntryMetadata)
      → (checkpoint_context host false id checkpoint db ≡ (err (turn_is t.result.status), db))
        × (start_model host false id call_id db ≡ (err (turn_is t.result.status), db))
        × (start_tool host false id tool_id name db ≡ (err (turn_is t.result.status), db))
        × (commit_tool host false id es files metadata db ≡ (err (turn_is t.result.status), db))
  unfolding checkpoint_context start_model start_tool commit_tool start_model_in commit_tool_in
      transaction
  steps-stopped tool_id name call_id checkpoint es files metadata = (
    rw active_turn-stopped,
    rw active_turn-stopped,
    rw active_turn-stopped,
    rw active_turn-stopped,
  )
