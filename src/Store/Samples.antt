-- ===== src/Store/Samples.antt =====
-- A small store: a session with a running turn that has made one model call.
use nimplex.Prelude.{ℕ, String, false, none, some, List, [], ◌∷◌}
use nimplex.Status.{RunStatus, running}
use nimplex.Storage.Records.{text}
use nimplex.Store.Records.{
  StartTurnRequest, ExecutorEvent, model_started, run_started, TurnConfig, StoredTurn,
  StoredSession, Workspace, pi_executor, docker, continue, build,
}
use nimplex.Store.Tables.{Database, empty_database, append}
use nimplex.Store.Events.{IsLog, log-append}

abbrev pub clock : ℕ → String
clock n = "2026-01-01T00:00:00.000Z"

abbrev pub request : StartTurnRequest
request = record {
  request_id = some "r1";
  prompt = "fix the test";
  instructions = "";
  model = "openai/gpt-5";
  sandbox = docker;
  timeout = 600;
  context_mode = continue;
  execution_mode = build;
  thinking = none;
  attachments = none;
}

abbrev pub config : TurnConfig
config = record {
  instructions = "";
  input = "fix the test";
  prior_messages = [];
  execution_mode = build;
  compact_context = false;
}

abbrev pub turn_in : RunStatus → StoredTurn
turn_in status = record {
  session_id = "s1";
  request = request;
  config = config;
  result = record {
    id = "t1";
    status = status;
    model_provider = "openai";
    model_id = "gpt-5";
    sandbox = docker;
    sandbox_ref = none;
    spent_usd = 7;
    billing_mode = none;
    workspace_revision = none;
    sandbox_generation = none;
    error = none;
    created_at = clock 0;
    started_at = some (clock 0);
    completed_at = none;
  };
}

abbrev pub session_row : StoredSession
session_row = record {
  id = "s1";
  cwd = "/repo";
  title = "fix";
  updated_at = clock 0;
  turn_ids = "t1" ∷ [];
  parent_session_id = none;
  sandbox_state = none;
  sandbox_provider = none;
  sandbox_generation = 0;
  running_since = none;
  running_uncertain = false;
  run_deadline = none;
  usage_summary = none;
  engine = some pi_executor;
}

abbrev pub before_files : Workspace
before_files = record { files = ("a.txt", 1 ∷ []) ∷ ("b.txt", 2 ∷ []) ∷ []; metadata = [] }

abbrev pub new_store : Database
new_store = record empty_database {
  sessions = ("s1", session_row) ∷ [];
  turns = ("t1", turn_in running) ∷ [];
  workspaces = ("t1", before_files) ∷ [];
}

abbrev pub history : List ExecutorEvent
history = run_started "t1" ∷ model_started "c1" (text "") ∷ []

abbrev pub store : Database
store = append clock "t1" history new_store

pub new_store-IsLog : IsLog new_store
new_store-IsLog = record { dense = λ id. tt }

pub store-IsLog : IsLog store
store-IsLog = (log-append clock "t1" history new_store new_store-IsLog).0
