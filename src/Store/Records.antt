-- ===== src/Store/Records.antt =====
-- What the store holds: sessions, turns and their results (packages/runtime/src/store.ts,
-- packages/contracts/src/index.ts and runtime.ts) and the events of a turn.
use nimplex.Prelude.{ℕ, String, Bool, Option, List}
use nimplex.Prelude.Dict.{Dict}
use nimplex.Status.{RunStatus}
use nimplex.Storage.Records.{Json, StorageError}

abbrev pub Bytes : Type 0
Bytes = List ℕ

pub data SessionEngine : Type 0 where
  pi_executor pi_harness : SessionEngine

-- `sandbox: z.enum(["e2b", "docker"])`
pub data Sandbox : Type 0 where
  e2b docker : Sandbox

-- Identity of a sandbox; what the provider keeps to resume it is JSON.
pub record SandboxSessionState : Type 0 where
  pub version : ℕ
  pub backend_id : String
  pub provider_state : Json
  pub workdir : String

-- Milliseconds and nano-dollars.
pub record SandboxUsageSummary : Type 0 where
  pub usd : ℕ
  pub milliseconds : ℕ
  pub unpriced_milliseconds : ℕ
  pub uncertain : Bool
  pub free : Bool

pub data UsageReason : Type 0 where
  paused deleted missing reconnected expired discarded : UsageReason

pub record SandboxUsageRecord : Type 0 where
  pub provider : Sandbox
  pub reason : UsageReason
  pub started_at : ℕ
  pub ended_at : ℕ
  pub milliseconds : ℕ
  pub cost : Option ℕ
  pub uncertain : Bool
  pub turn_id : Option String

pub data ContextMode : Type 0 where
  continue reset compact : ContextMode

pub data ExecutionMode : Type 0 where
  build read_only : ExecutionMode

pub record Attachment : Type 0 where
  pub path : String
  pub content : String

pub record StartTurnRequest : Type 0 where
  pub request_id : Option String
  pub prompt : String
  pub instructions : String
  pub model : String
  pub sandbox : Sandbox
  pub timeout : ℕ
  pub context_mode : ContextMode
  pub execution_mode : ExecutionMode
  pub thinking : Option String
  pub attachments : Option (List Attachment)

pub record AcceptedTurnInput : Type 0 where
  pub session_id : String
  pub request_id : String
  pub turn_id : String
  pub accepted_at : String
  pub request : StartTurnRequest

-- `spent_usd` in micro-dollars
pub record RunResponse : Type 0 where
  pub id : String
  pub status : RunStatus
  pub model_provider : String
  pub model_id : String
  pub sandbox : Sandbox
  pub sandbox_ref : Option String
  pub spent_usd : ℕ
  pub billing_mode : Option String
  pub workspace_revision : Option ℕ
  pub sandbox_generation : Option ℕ
  pub error : Option String
  pub created_at : String
  pub started_at : Option String
  pub completed_at : Option String

pub data EntryKind : Type 0 where
  file directory symlink : EntryKind

pub record EntryMetadata : Type 0 where
  pub kind : EntryKind
  pub mode : ℕ
  pub target : Option String

pub record Workspace : Type 0 where
  pub files : Dict Bytes
  pub metadata : Dict EntryMetadata

pub record FileChange : Type 0 where
  pub path : String
  pub content : Option Bytes
  pub bytes : ℕ
  pub sha256 : Option String
  pub revision : ℕ

-- `type` and `payload` together: a payload that is read by its type is a constructor's fields, and
-- `other` is every event whose payload the modelled code does not read.
pub data ExecutorEvent : Type 0 where
  model_started : String → Json → ExecutorEvent
  model_reserved : String → ExecutorEvent
  model_call : Json → ExecutorEvent
  spend_updated : String → ℕ → Bool → ExecutorEvent
  tool_started : String → String → ExecutorEvent
  tool_result : String → String → Json → Bool → ExecutorEvent
  file_changed : FileChange → ExecutorEvent
  workspace_committed : ℕ → Dict EntryMetadata → ExecutorEvent
  context_checkpoint : Json → ExecutorEvent
  message_continue : String → ExecutorEvent
  input_accepted : String → String → ExecutorEvent
  run_started run_resumed : String → ExecutorEvent
  run_interrupted : String → ExecutorEvent
  run_finished : RunStatus → Option String → ExecutorEvent
  sandbox_created : Sandbox → ℕ → ExecutorEvent
  environment_reset : ℕ → ExecutorEvent
  sandbox_usage : SandboxUsageRecord → ExecutorEvent
  other : String → Json → ExecutorEvent

pub record RunEvent : Type 0 where
  pub turn_id : String
  pub seq : ℕ
  pub created_at : String
  pub event : ExecutorEvent

pub record TurnConfig : Type 0 where
  pub instructions : String
  pub input : String
  pub prior_messages : List Json
  pub execution_mode : ExecutionMode
  pub compact_context : Bool

pub record StoredTurn : Type 0 where
  pub session_id : String
  pub request : StartTurnRequest
  pub config : TurnConfig
  pub result : RunResponse

pub record StoredSession : Type 0 where
  pub id : String
  pub cwd : String
  pub title : String
  pub updated_at : String
  pub turn_ids : List String
  pub parent_session_id : Option String
  pub sandbox_state : Option SandboxSessionState
  pub sandbox_provider : Option Sandbox
  pub sandbox_generation : ℕ
  pub running_since : Option ℕ
  pub running_uncertain : Bool
  pub run_deadline : Option ℕ
  pub usage_summary : Option SandboxUsageSummary
  pub engine : Option SessionEngine

pub data RuntimeError : Type 0 where
  runtime_closed constraint_failed invalid_cost unknown_attempt session_has_turns : RuntimeError
  session_not_found turn_not_found workspace_not_found : String → RuntimeError
  turn_is : RunStatus → RuntimeError
  too_many_files too_many_bytes : ℕ → RuntimeError
  active_turn no_interrupted_turn not_interrupted request_reused : RuntimeError
  title_required fork_unfinished fork_interrupted : RuntimeError
  refused : String → RuntimeError
  storage : StorageError → RuntimeError
