-- ===== src/Runtime/Closing.antt =====
-- The end of an execution that throws, `cleanupSandbox`, and the sessions' part of `close`.
use nimplex.Prelude.{
  ℕ, String, Bool, true, false, not, ◌&&◌, Option, none, some, List, [], ◌∷◌, map, get_last?,
  if◌then◌else◌, str_eq, opt_eq, Result, ok, err, ◌>>=◌,
}
use nimplex.Status.{RunStatus, failed, killed, canceled}
use nimplex.Store.Records.{StoredSession, Sandbox, SandboxSessionState, UsageReason, RuntimeError}
use nimplex.Store.Tables.{
  Database, session, turn, save_session, delete_session, transaction, is_nil,
}
use nimplex.Metering.Usage.{is_some, settle_sandbox_usage}
use nimplex.Runtime.Lifecycle.{interrupted_error, finish}

-- the status of a turn whose execution ended with the reason
abbrev pub failure_status : String → RunStatus
failure_status reason =
    if str_eq reason "canceled"
    then canceled
    else if str_eq reason "duration_exceeded"
    then killed
    else failed

-- the reason of an abort, which may carry no message, or else the error's message
abbrev pub failure_reason : Option (Option String) → String → String
failure_reason none message = message
failure_reason (some none) message = "canceled"
failure_reason (some (some reason)) message = reason

-- A session that is resumed later: its last turn was interrupted.
unfoldable pub resumable : StoredSession → Database → Result RuntimeError Bool
unfolding turn
resumable s db = elim (get_last? s.turn_ids) [
  | none ↦ ok false
  | some last ↦ do t ← turn last db; ok (opt_eq t.result.error (some interrupted_error))
]

abbrev pub is_untouched : StoredSession → Bool
is_untouched s =
    is_nil s.turn_ids && not (is_some s.sandbox_state) && str_eq s.title "New conversation"

abbrev pub delete_in : String → Database → Result RuntimeError (Unit {0} × Database)
unfolding delete_session
delete_in id db = do db' ← delete_session id db; ok (tt, db')

-- what follows runs where nothing was thrown
abbrev pub then_next :
    Result RuntimeError (Unit {0}) × Database
    → (Database → Result RuntimeError (Unit {0}) × Database)
    → Result RuntimeError (Unit {0}) × Database
then_next (err e, db) rest = (err e, db)
then_next (ok u, db) rest = rest db

-- Whether a provider's `delete` returns, and what metering takes from outside.
module _ (deletes : Sandbox → SandboxSessionState → Bool) (number_value : String → ℕ)
    (now : ℕ → String) (at : ℕ) where
  unfoldable pub discard_sandbox : String → Database → Result RuntimeError (Unit {0} × Database)
  unfolding settle_sandbox_usage session
  discard_sandbox session_id db = do
    db' ← settle_sandbox_usage number_value now session_id UsageReason.deleted none at false db
    s ← session session_id db'
    ok (tt, save_session (record s { sandbox_state = none }) db')

  -- `catch`: what throws after the read is only reported
  abbrev pub report :
      Result RuntimeError (Unit {0}) × Database → Result RuntimeError (Unit {0}) × Database
  report (r, db) = (ok tt, db)

  abbrev pub clean_up :
      Bool
      → String
      → Option Sandbox
      → Option SandboxSessionState
      → Database
      → Result RuntimeError (Unit {0}) × Database
  clean_up closed session_id (some provider) (some state) db =
      if deletes provider state
      then report (transaction closed (discard_sandbox session_id) db)
      else (ok tt, db)
  clean_up closed session_id _ _ db = (ok tt, db)

  unfoldable pub cleanup_sandbox :
      Bool → String → Database → Result RuntimeError (Unit {0}) × Database
  unfolding discard_sandbox
  cleanup_sandbox closed session_id db = elim (session session_id db) [
    | err e ↦ (err e, db)
    | ok s ↦ clean_up closed session_id s.sandbox_provider s.sandbox_state db
  ]

  -- the `catch` of `execute`, for an abort that may have a message, or an error
  unfoldable pub fail_turn :
      Bool
      → String
      → String
      → String
      → Option (Option String)
      → String
      → Database
      → Result RuntimeError (Unit {0}) × Database
  unfolding finish cleanup_sandbox
  fail_turn closed id session_id ended_at aborted message db =
      let reason = failure_reason aborted message in
      then_next (finish ended_at now closed id (failure_status reason) (some reason) db) λ db'.
        if is_some aborted && not (str_eq reason interrupted_error)
        then cleanup_sandbox closed session_id db'
        else (ok tt, db')

  -- a session whose work cannot be resumed gives up its sandbox
  abbrev pub release :
      StoredSession
      → Result RuntimeError Bool
      → Database
      → Result RuntimeError (Unit {0}) × Database
  release s (err e) db = (err e, db)
  release s (ok true) db = (ok tt, db)
  release s (ok false) db = cleanup_sandbox false s.id db

  -- one round of the loop over the sessions
  unfoldable pub close_session :
      StoredSession → Database → Result RuntimeError (Unit {0}) × Database
  unfolding resumable cleanup_sandbox
  close_session s db =
      if is_untouched s
      then transaction false (delete_in s.id) db
      else release s (resumable s db) db

  unfoldable pub close_all :
      List StoredSession → Database → Result RuntimeError (Unit {0}) × Database
  unfolding close_session
  close_all [] db = (ok tt, db)
  close_all (s ∷ rest) db = then_next (close_session s db) (close_all rest)

  -- what `close` does once every execution has ended
  unfoldable pub close_sessions : Database → Result RuntimeError (Unit {0}) × Database
  unfolding close_all
  close_sessions db = close_all (map (λ e. e.1) db.sessions) db
