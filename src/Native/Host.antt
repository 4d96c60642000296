-- ===== src/Native/Host.antt =====
-- What a native command needs: the host of its turn (`NativeHost`) and the provider of its sandbox.
use nimplex.Prelude.{
  ℕ, String, ◌≡◌, Bool, false, ◌&&◌, Option, none, some, List, [], ◌∷◌, ◌++◌, any, str_eq,
  if◌then◌else◌, Result, ok,
}
use nimplex.Storage.Records.{Json, text, object}
use nimplex.Store.Members.{get_member}
use nimplex.Store.Records.{ExecutorEvent, other, SandboxSessionState, RuntimeError}
use nimplex.Metering.Usage.{SandboxTransition}

-- The operations of `NativeHost` on the host's own state. Each takes the tick of its call, since what a
-- host does, and whether it throws, is up to the moment.
pub record NativeHost (H : Type 0) : Type 0 where
  pub assert_active : ℕ → H → Result RuntimeError (Unit {0}) × H
  pub record_state : SandboxSessionState → Bool → ℕ → ℕ → H → Result RuntimeError (Unit {0}) × H
  pub sandbox_transition : SandboxTransition → Option ℕ → ℕ → H → Result RuntimeError (Unit {0}) × H
  pub sandbox_discarded :
      SandboxSessionState → ℕ → Bool → ℕ → H → Result RuntimeError (Unit {0}) × H
  pub append_events : List ExecutorEvent → ℕ → H → Result RuntimeError (Unit {0}) × H
  pub read_events : H → List ExecutorEvent
  pub generation : H → ℕ
  pub should_destroy_on_abort : H → Bool

-- On the host's good states, which it keeps, an operation only adds events to the turn's log.
pub record IsExtending {H : Type 0} (host : NativeHost H) (Good : H → Type 0)
    (op : H → Result RuntimeError (Unit {0}) × H) : Type 0 where
  pub keeps : (h : H) → Good h → Good (op h).1
  pub extends :
      (h : H)
      → Good h
      → (more : List ExecutorEvent) × (host.read_events (op h).1 ≡ host.read_events h ++ more)

pub record NativeHostLaws {H : Type 0} (host : NativeHost H) (Good : H → Type 0) : Type 0 where
  pub assert_active-extends : (n : ℕ) → IsExtending host Good (host.assert_active n)
  pub record_state-extends :
      (s : SandboxSessionState) (reset : Bool) (at n : ℕ)
      → IsExtending host Good (host.record_state s reset at n)
  pub sandbox_transition-extends :
      (t : SandboxTransition) (at : Option ℕ) (n : ℕ)
      → IsExtending host Good (host.sandbox_transition t at n)
  pub sandbox_discarded-extends :
      (s : SandboxSessionState) (at : ℕ) (stopped : Bool) (n : ℕ)
      → IsExtending host Good (host.sandbox_discarded s at stopped n)
  pub append_events-extends :
      (es : List ExecutorEvent) (n : ℕ) → IsExtending host Good (host.append_events es n)
  -- what returns has appended
  pub append_events-appends :
      (es : List ExecutorEvent) (n : ℕ) (h h' : H)
      → Good h
      → host.append_events es n h ≡ (ok tt, h')
      → host.read_events h' ≡ host.read_events h ++ es

pub record ExecResult : Type 0 where
  pub exit_code : Option ℕ
  pub stdout : String
  pub stderr : String
  pub timed_out : Bool

pub data Resumption : Type 0 where
  resumed missing failed : Resumption

-- What the provider answers, at the tick of each call; `none` and `false` are a throw. A session is the
-- session of its sandbox's state, and a resumed one is of the same sandbox. `reaches` tells whether the
-- command that a call sends reaches the sandbox, whatever the answer is.
pub record Provider : Type 0 where
  pub backend_id : String
  pub can_pause : Bool
  pub unavailable_reason : ℕ → Option String
  pub create : ℕ → Option SandboxSessionState
  pub resume : ℕ → Resumption
  pub exec : ℕ → Option ExecResult
  pub reaches : ℕ → Bool
  pub write_file : ℕ → Bool
  pub pause : ℕ → Bool
  pub stop : ℕ → Bool
  pub delete : ℕ → Bool

-- The rest of the outside: the abort signal, the clock, the name of a sandbox, SHA-256.
pub record Surroundings : Type 0 where
  pub run_id : String
  pub is_local : Bool
  pub provider : Provider
  pub aborted : ℕ → Bool
  pub clock : ℕ → ℕ
  pub name : SandboxSessionState → String
  pub sha256 : String → String
  pub number_text : ℕ → String

-- The closure's variables (`state`, `session` and, in a call, `active`), the host's state, the runs of
-- commands that the supervisors have started, as a sandbox and a job, and the number of calls so far.
pub record World (H : Type 0) : Type 0 where
  pub state : Option SandboxSessionState
  pub session : Option SandboxSessionState
  pub active : Option SandboxSessionState
  pub host : H
  pub runs : List (String × String)
  pub tick : ℕ

-- the event that records the dispatch of a tool call
abbrev pub escalated_call : ExecutorEvent → Option Json
unfolding get_member
escalated_call (other kind (object ms)) =
    if str_eq kind "tier.escalated" then get_member "tool_call_id" ms else none
escalated_call e = none

abbrev pub is_text : String → Option Json → Bool
is_text s (some (text t)) = str_eq t s
is_text s j = false

abbrev pub is_dispatch : String → ExecutorEvent → Bool
is_dispatch id e = is_text id (escalated_call e)

abbrev pub is_run : String → String → String × String → Bool
is_run box job r = str_eq r.0 box && str_eq r.1 job

-- The supervisor's once-only marker: the job's directory, which only the first launch can make.
unfoldable pub supervise : String → String → List (String × String) → List (String × String)
supervise box job runs = if any (is_run box job) runs then runs else runs ++ (box, job) ∷ []
