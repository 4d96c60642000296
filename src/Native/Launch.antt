-- ===== src/Native/Launch.antt =====
-- The launch of a command's supervisor, which is sent again when its answer is lost.
use nimplex.Prelude.{
  ℕ, String, Bool, false, not, ◌&&◌, ◌==◌, Option, none, some, [], ◌∷◌, if◌then◌else◌,
}
use Prim.Native.String.{◌++◌ as ◌<>◌}
use nimplex.Storage.Records.{text, number, object, member, end}
use nimplex.Store.Records.{ExecutorEvent, other, SandboxSessionState, RuntimeError, refused}
use nimplex.Native.Actions.{Action, ◌>>=◌, ◌>>◌, pure, throw, reading, modify, catching, unless}
use nimplex.Native.Host.{NativeHost, ExecResult, Surroundings, World, supervise}
use nimplex.Native.Session.{ask, append_events, reconnect}

abbrev pub exits : ℕ → ExecResult → Bool
exits n r = elim r.exit_code [ none ↦ false | some code ↦ code == n ]

module _ {H : Type 0} (run : NativeHost H) (env : Surroundings) where
  abbrev pub answer : Option ExecResult → Action (World H) ExecResult
  answer none = throw (refused "exec failed")
  answer (some r) = pure r

  abbrev pub exec : Action (World H) ExecResult
  exec = ask env.provider.exec >>= answer

  abbrev pub start_supervisor : SandboxSessionState → String → Action (World H) (Unit {0})
  start_supervisor box job = modify λ w. record w {
    runs = if env.provider.reaches w.tick then supervise (env.name box) job w.runs else w.runs;
  }

  -- the launch of the supervisor, whether or not its answer arrives
  abbrev pub exec_launch : SandboxSessionState → String → Action (World H) ExecResult
  exec_launch box job = do start_supervisor box job; exec

  abbrev pub launch_again : SandboxSessionState → String → Action (World H) ExecResult
  launch_again box job = do reconnect run env box; exec_launch box job

  abbrev pub again_after_throw :
      SandboxSessionState → String → RuntimeError → Action (World H) ExecResult
  again_after_throw box job e = if not env.provider.can_pause then throw e else launch_again box job

  abbrev pub again_after_timeout :
      SandboxSessionState → String → ExecResult → Action (World H) ExecResult
  again_after_timeout box job launched =
      if launched.timed_out && env.provider.can_pause then launch_again box job else pure launched

  unfoldable pub dispatch : SandboxSessionState → String → Action (World H) (Unit {0})
  dispatch box job = do
    first ← catching (exec_launch box job) (again_after_throw box job)
    answered ← again_after_timeout box job first
    unless (exits 0 answered) (refused "sandbox dispatch failed")

  abbrev pub dispatch_event : String → ℕ → ExecutorEvent
  dispatch_event id generation = other "tier.escalated" (
      object (
        member "tool_call_id" (text id) (
          member "provider" (text env.provider.backend_id)
            (member "generation" (number (env.number_text generation)) end))))

  abbrev pub record_dispatch : String → Action (World H) (Unit {0})
  record_dispatch id =
      reading λ w. append_events run env (dispatch_event id (run.generation w.host) ∷ [])

  abbrev pub job_of : String → String
  job_of id = "/tmp/nimplex-runtime-" <> env.run_id <> "/" <> env.sha256 (env.run_id <> ":" <> id)
