-- ===== src/Runtime/Lifecycle.antt =====
-- Recovery when a runtime opens a state root, `finish` and `resumeTurn`.
use nimplex.Prelude.{
  ℕ, String, Bool, true, false, not, ◌&&◌, Option, none, some, List, [], ◌∷◌, map, get_last?,
  if◌then◌else◌, str_eq, opt_eq, Result, ok, ◌>>=◌, ◌>>◌, guard, or_throw,
}
use nimplex.Prelude.Dict.{Dict, lookup, insert}
use nimplex.Status.{RunStatus, running, failed, is_terminal}
use nimplex.Store.Records.{
  StoredTurn, RuntimeError, runtime_closed, active_turn, no_interrupted_turn, not_interrupted,
  run_interrupted, run_resumed, run_finished,
}
use nimplex.Store.Tables.{Database, session, turn, save_turn, append, transaction}

abbrev pub interrupted_error : String
interrupted_error = "runtime_interrupted"

abbrev pub end_turn : RunStatus → Option String → String → StoredTurn → StoredTurn
end_turn status error at t = record t {
  result = record t.result { status = status; error = error; completed_at = some at };
}

-- A value of the clock for the end of a turn, and one for each appended row.
module _ (at : String) (now : ℕ → String) where
  -- one round of the constructor's loop over the turns
  unfoldable pub interrupt_turn : StoredTurn → Database → Database
  interrupt_turn t db =
      if is_terminal t.result.status
      then db
      else append now t.result.id (run_interrupted interrupted_error ∷ [])
          (save_turn (end_turn failed (some interrupted_error) at t) db)

  unfoldable pub interrupt_turns : List StoredTurn → Database → Database
  unfolding interrupt_turn
  interrupt_turns [] db = db
  interrupt_turns (t ∷ ts) db = interrupt_turns ts (interrupt_turn t db)

  -- the loop, over the turns that the store holds when it starts
  unfoldable pub recover_turns : Database → Database
  unfolding interrupt_turns
  recover_turns db = interrupt_turns (map (λ e. e.1) db.turns) db

  -- the rest of `finish` on the turn that it has read
  unfoldable pub finish_turn : String → RunStatus → Option String → StoredTurn → Database → Database
  finish_turn id status error t db =
      if is_terminal t.result.status
      then db
      else append now id (run_finished status error ∷ [])
          (save_turn (end_turn status error at t) db)

  -- `finish`'s operation
  unfoldable pub finish_in :
      String → RunStatus → Option String → Database → Result RuntimeError (Unit {0} × Database)
  unfolding finish_turn
  finish_in id status error db = do t ← turn id db; ok (tt, finish_turn id status error t db)

  unfoldable pub finish :
      Bool
      → String
      → RunStatus
      → Option String
      → Database
      → Result RuntimeError (Unit {0}) × Database
  finish closed id status error = transaction closed (finish_in id status error)

-- The runtime in memory: whether it is closing, and the active turn of each session.
pub record Runtime : Type 0 where
  pub db : Database
  pub closing : Bool
  pub active : Dict String

abbrev pub has_active : String → Runtime → Bool
has_active session_id rt = elim (lookup session_id rt.active) [ none ↦ false | some id ↦ true ]

abbrev pub set_running : StoredTurn → StoredTurn
set_running t = record t {
  result = record t.result { status = running; error = none; completed_at = none };
}

-- `launch` registers the turn before it executes
unfoldable pub launch : StoredTurn → Runtime → Runtime
launch t rt = record rt { active = insert t.session_id t.result.id rt.active }

unfoldable pub resume_turn :
    (ℕ → String) → String → Runtime → Result RuntimeError (String × Runtime)
unfolding launch
resume_turn now session_id rt = do
  guard (not rt.closing) runtime_closed
  guard (not (has_active session_id rt)) active_turn
  s ← session session_id rt.db
  id ← or_throw (get_last? s.turn_ids) no_interrupted_turn
  t ← turn id rt.db
  guard (str_eq t.session_id session_id && opt_eq t.result.error (some interrupted_error))
      not_interrupted
  let db' = append now id (run_resumed session_id ∷ []) (save_turn (set_running t) rt.db)
  ok (id, launch (set_running t) (record rt { db = db' }))
