-- ===== src/Sessions/Snapshots.antt =====
-- `getSession` and `publicEvents`: what a client sees of a session.
use nimplex.Prelude.{ℕ, String, Option, none, List, [], ◌∷◌, map, get_last?, Result, ok, ◌>>=◌}
use nimplex.Store.Records.{
  RunEvent, RunResponse, ExecutorEvent, file_changed, SessionEngine, StoredSession, RuntimeError,
}
use nimplex.Store.Tables.{Database, events, session, turn}
use nimplex.Metering.Summary.{ShownUsage, sandbox_usage_summary}

-- a change of a file without its `content_base64`
abbrev pub without_content : ExecutorEvent → ExecutorEvent
without_content (file_changed c) = file_changed (record c { content = none })
without_content e = e

abbrev pub public_event : RunEvent → RunEvent
public_event e = record e { event = without_content e.event }

unfoldable pub public_events : String → Option ℕ → Database → List RunEvent
unfolding events
public_events id after db = map public_event (events id after db)

pub record SessionTurn : Type 0 where
  pub prompt : String
  pub run_id : String
  pub result : RunResponse
  pub events : List RunEvent

pub record SessionSnapshot : Type 0 where
  pub id : String
  pub cwd : String
  pub title : String
  pub updated_at : String
  pub parent_session_id : Option String
  pub engine : Option SessionEngine
  pub sandbox : Option ShownUsage
  pub head_run_id : Option String
  pub turns : List SessionTurn

abbrev pub session_turn : String → Database → Result RuntimeError SessionTurn
session_turn id db = do
  t ← turn id db
  ok (record {
    prompt = t.request.prompt;
    run_id = id;
    result = t.result;
    events = public_events id none db;
  })

unfoldable pub session_turns : List String → Database → Result RuntimeError (List SessionTurn)
session_turns [] db = ok []
session_turns (id ∷ ids) db = do t ← session_turn id db; rest ← session_turns ids db; ok (t ∷ rest)

abbrev pub snapshot_of : String → StoredSession → List SessionTurn → SessionSnapshot
snapshot_of id s turns = record {
  id = id;
  cwd = s.cwd;
  title = s.title;
  updated_at = s.updated_at;
  parent_session_id = s.parent_session_id;
  engine = s.engine;
  sandbox = sandbox_usage_summary s;
  head_run_id = get_last? s.turn_ids;
  turns = turns;
}

unfoldable pub get_session : String → Database → Result RuntimeError SessionSnapshot
unfolding session_turns
get_session id db = do
  s ← session id db
  turns ← session_turns s.turn_ids db
  ok (snapshot_of id s turns)
