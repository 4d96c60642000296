-- ===== src/Sessions/Seeding.antt =====
-- `seedTurn`: the checks of a new turn, and the transaction that stores it.
use nimplex.Prelude.{
  ℕ, String, Bool, true, false, not, ◌||◌, Option, none, some, List, [], ◌∷◌, ◌++◌, get_last?,
  if◌then◌else◌, str_eq, opt_eq, Result, ok, err, ◌>>=◌, ◌>>◌, guard,
}
use nimplex.Prelude.Texts.{text_take}
use nimplex.Status.{running, is_terminal}
use nimplex.Storage.Records.{Json}
use nimplex.Store.Records.{
  Attachment, StartTurnRequest, AcceptedTurnInput, ContextMode, continue, reset, compact, Sandbox,
  SessionEngine, pi_executor, pi_harness, StoredSession, StoredTurn, Workspace, RunEvent,
  input_accepted, run_started, RuntimeError, refused,
}
use nimplex.Store.Tables.{
  Database, transaction, session, turn, workspace, save_session, save_turn, save_workspace,
  save_accepted_input, append, events,
}
use nimplex.Prelude.{map}
use nimplex.Checkpoints.Steps.{Host, check_workspace_limits, revision_of}
use nimplex.Sessions.Requests.{
  CatalogModel, SelectedModel, resolve_local_model, sandbox_eq, codex_provider,
}
use nimplex.Sessions.Attachments.{PosixPath, attach_all, is_some}
use nimplex.Sessions.Conversation.{continuation_messages}

-- What seeding takes from outside: the steps' host, node:path, the catalog of models, JSON numbers.
pub record SeedHost : Type 0 where
  pub steps : Host
  pub posix : PosixPath
  pub catalog : List CatalogModel
  pub is_nonzero : String → Bool

-- The identities and the time that a turn is seeded with.
pub record Fresh : Type 0 where
  pub id : String
  pub request_id : String
  pub at : String

abbrev pub read_parent : Option String → Database → Result RuntimeError (Option StoredTurn)
read_parent none db = ok none
read_parent (some id) db = do t ← turn id db; ok (some t)

abbrev pub is_live : Option StoredTurn → Bool
unfolding is_terminal
is_live none = false
is_live (some t) = not (is_terminal t.result.status)

abbrev pub is_interrupted : Option StoredTurn → Bool
is_interrupted none = false
is_interrupted (some t) = opt_eq t.result.error (some "runtime_interrupted")

abbrev pub same_sandbox : Option Sandbox → Sandbox → Bool
same_sandbox none p = false
same_sandbox (some q) p = sandbox_eq q p

abbrev pub is_harness : Option SessionEngine → Bool
is_harness none = false
is_harness (some pi_executor) = false
is_harness (some pi_harness) = true

abbrev pub is_legacy_model : SelectedModel → Bool
is_legacy_model m = str_eq m.provider "anthropic" || str_eq m.provider codex_provider

abbrev pub thinks : Option String → Bool
thinks none = false
thinks (some level) = not (str_eq level "" || str_eq level "off")

abbrev pub attachments_of : StartTurnRequest → List Attachment
attachments_of r = elim r.attachments [ none ↦ [] | some list ↦ list ]

abbrev pub is_reset : ContextMode → Bool
is_reset continue = false
is_reset reset = true
is_reset compact = false

abbrev pub is_compact : ContextMode → Bool
is_compact continue = false
is_compact reset = false
is_compact compact = true

abbrev pub parent_revision : Option StoredTurn → ℕ
parent_revision none = 0
parent_revision (some t) = revision_of t

abbrev pub request_id_of : StartTurnRequest → Fresh → String
request_id_of r fresh = elim r.request_id [ none ↦ fresh.request_id | some q ↦ q ]

abbrev pub with_id : StartTurnRequest → Fresh → StartTurnRequest
with_id r fresh = record r { request_id = some (request_id_of r fresh) }

abbrev pub seeded_turn :
    String
    → StartTurnRequest
    → Fresh
    → StoredSession
    → Option StoredTurn
    → SelectedModel
    → List Json
    → StoredTurn
seeded_turn session_id r fresh s parent selected prior = record {
  session_id = session_id;
  request = with_id r fresh;
  config = record {
    instructions = r.instructions;
    input = r.prompt;
    prior_messages = prior;
    execution_mode = r.execution_mode;
    compact_context = is_compact r.context_mode;
  };
  result = record {
    id = fresh.id;
    status = running;
    model_provider = selected.provider;
    model_id = selected.id;
    sandbox = r.sandbox;
    sandbox_ref = none;
    spent_usd = 0;
    billing_mode = some selected.billing;
    workspace_revision = some (parent_revision parent);
    sandbox_generation = some s.sandbox_generation;
    error = none;
    created_at = fresh.at;
    started_at = some fresh.at;
    completed_at = none;
  };
}

abbrev pub seeded_session : StartTurnRequest → Fresh → StoredSession → StoredSession
seeded_session r fresh s = record s {
  turn_ids = s.turn_ids ++ fresh.id ∷ [];
  updated_at = fresh.at;
  title = if str_eq s.title "New conversation" then text_take 70 r.prompt else s.title;
}

abbrev pub accepted : String → StartTurnRequest → Fresh → AcceptedTurnInput
accepted session_id r fresh = record {
  session_id = session_id;
  request_id = request_id_of r fresh;
  turn_id = fresh.id;
  accepted_at = fresh.at;
  request = with_id r fresh;
}

-- A turn that has passed the checks, with what is stored for it.
pub record Seed : Type 0 where
  pub turn : StoredTurn
  pub session : StoredSession
  pub workspace : Workspace
  pub input : AcceptedTurnInput

module _ (host : SeedHost) where
  abbrev pub prior_messages :
      StartTurnRequest → Option StoredTurn → Database → Result RuntimeError (List Json)
  unfolding continuation_messages
  prior_messages r none db = ok []
  prior_messages r (some t) db =
      if is_reset r.context_mode
      then ok []
      else continuation_messages host.is_nonzero t.config
          (map (λ (e : RunEvent). e.event) (events t.result.id none db))

  -- the session and its last turn, which must have ended and not wait to be resumed
  unfoldable pub open_conversation :
      String → Database → Result RuntimeError (StoredSession × Option StoredTurn)
  open_conversation session_id db = do
    s ← session session_id db
    parent ← read_parent (get_last? s.turn_ids) db
    guard (not (is_live parent)) (refused "The previous turn is still active.")
    guard (not (is_interrupted parent))
        (refused "Resume the interrupted turn first, or start a new session.")
    ok (s, parent)

  -- the last turn's workspace with the attachments, within the limits
  unfoldable pub seed_workspace :
      StartTurnRequest → Option String → Database → Result RuntimeError Workspace
  unfolding attach_all
  seed_workspace r parent_id db = do
    inherited ← workspace parent_id db
    w ← attach_all host.posix (attachments_of r) inherited
    check_workspace_limits host.steps w.files w.metadata
    ok w

  -- the session's sandbox, the model and what the session's engine supports
  unfoldable pub select_model : StartTurnRequest → StoredSession → Result RuntimeError SelectedModel
  select_model r s = do
    guard (not (is_some s.sandbox_state) || same_sandbox s.sandbox_provider r.sandbox)
        (refused "This session already owns a different sandbox.")
    selected ← resolve_local_model host.catalog r.model
    guard (is_harness s.engine || is_legacy_model selected)
        (refused "The legacy executor supports only Anthropic and Codex models.")
    guard (is_harness s.engine || not (thinks r.thinking))
        (refused "The legacy executor has no thinking levels.")
    ok selected

  abbrev pub new_seed :
      String
      → StartTurnRequest
      → Fresh
      → StoredSession
      → Option StoredTurn
      → Workspace
      → SelectedModel
      → List Json
      → Seed
  new_seed session_id r fresh s parent w selected prior = record {
    turn = seeded_turn session_id r fresh s parent selected prior;
    session = seeded_session r fresh s;
    workspace = w;
    input = accepted session_id r fresh;
  }

  -- what `seedTurn` reads and checks before its transaction
  unfoldable pub plan_turn : String → StartTurnRequest → Fresh → Database → Result RuntimeError Seed
  unfolding open_conversation seed_workspace select_model
  plan_turn session_id r fresh db = do
    (s, parent) ← open_conversation session_id db
    w ← seed_workspace r (get_last? s.turn_ids) db
    selected ← select_model r s
    prior ← prior_messages r parent db
    ok (new_seed session_id r fresh s parent w selected prior)

  -- the transaction's operation
  unfoldable pub store_seed : Seed → Database → Result RuntimeError (StoredTurn × Database)
  store_seed seed db = do
    let id = seed.turn.result.id
    db' ←
        save_accepted_input seed.input
          (save_workspace id seed.workspace (save_turn seed.turn (save_session seed.session db)))
    ok (
      seed.turn,
      append host.steps.now id
          (input_accepted seed.input.session_id seed.input.request_id
            ∷ run_started seed.input.session_id
            ∷ [])
          db',
    )

  unfoldable pub seed_turn :
      Bool
      → String
      → StartTurnRequest
      → Fresh
      → Database
      → Result RuntimeError StoredTurn × Database
  seed_turn closed session_id r fresh db = elim (plan_turn session_id r fresh db) [
    | err e ↦ (err e, db)
    | ok seed ↦ transaction closed (store_seed seed) db
  ]
