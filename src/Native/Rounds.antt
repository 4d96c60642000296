-- ===== src/Native/Rounds.antt =====
-- The steps around the launch of a command start no command: reading its journal, pausing, cleaning up.
use nimplex.Prelude.{ℕ, zero, suc, String, Option, none, some, List, Result, ok, err}
use nimplex.Store.Records.{ExecutorEvent, SandboxSessionState, Bytes, RuntimeError}
use nimplex.Checkpoints.Steps.{Host}
use nimplex.Native.Actions.{Action}
use nimplex.Native.Keeps.{Keeps}
use nimplex.Native.Host.{NativeHost, NativeHostLaws, Surroundings, World, ExecResult}
use nimplex.Native.Quiet.{
  IsUpward, Observed, quiet_rules, throw_if_aborted-Quiet, pause_idle-Quiet, reconnect-Quiet,
  exec-Quiet,
}
use nimplex.Native.Journal.{Journal, Collected}
use nimplex.Native.Bash.{
  pause_collected, read_again, read_answer, poll_once, cleanup, after_call, refuse_unavailable,
  available, with_journal, poll_round, poll, on_failure,
}

module _ {H : Type 0} (run : NativeHost H) (env : Surroundings) (Good : H → Type 0)
    (laws : NativeHostLaws run Good) (P : List (String × String) → List ExecutorEvent → Type 0)
    (up : IsUpward P) where
  pause_collected-Quiet : Keeps (Observed run Good P) (pause_collected run env)
  pause_collected-Quiet = search (quiet_rules, pause_idle-Quiet) depth 8

  read_again-Quiet :
      (box : SandboxSessionState) → Keeps (Observed run Good P) (read_again run env box)
  read_again-Quiet box = search (quiet_rules, reconnect-Quiet)

  read_answer-Quiet :
      (box : SandboxSessionState) (r : Result RuntimeError ExecResult)
      → Keeps (Observed run Good P) (read_answer run env box r)
  read_answer-Quiet box (ok r) =
      search (quiet_rules, read_again-Quiet, throw_if_aborted-Quiet) depth 8
  read_answer-Quiet box (err e) = search (quiet_rules, read_again-Quiet, throw_if_aborted-Quiet)

  poll_once-Quiet :
      (box : SandboxSessionState) → Keeps (Observed run Good P) (poll_once run env box)
  unfolding poll_once
  poll_once-Quiet box = search (quiet_rules, read_answer-Quiet, throw_if_aborted-Quiet, exec-Quiet)

  cleanup-Quiet : (s : Option SandboxSessionState) → Keeps (Observed run Good P) (cleanup run env s)
  cleanup-Quiet none = search quiet_rules
  cleanup-Quiet (some s) = search quiet_rules depth 8

  pub after_call-Quiet : Keeps (Observed run Good P) (after_call run env)
  unfolding after_call
  after_call-Quiet = search (quiet_rules, cleanup-Quiet)

  refuse_unavailable-Quiet :
      (e : Option String) → Keeps (Observed run Good P) (refuse_unavailable run env e)
  refuse_unavailable-Quiet none = search quiet_rules
  refuse_unavailable-Quiet (some e) = search quiet_rules

  pub available-Quiet : Keeps (Observed run Good P) (available run env)
  available-Quiet = search (quiet_rules, refuse_unavailable-Quiet, throw_if_aborted-Quiet)

  module _ (host : Host) (parse : String → Option Journal) (from_base64 : String → Bytes) where
    with_journal-Quiet :
        (rest : Action (World H) Collected)
        → Keeps (Observed run Good P) rest
        → (raw : Option String)
        → Keeps (Observed run Good P) (with_journal run env host parse from_base64 rest raw)
    with_journal-Quiet rest kept none = kept
    with_journal-Quiet rest kept (some raw) = search (quiet_rules, pause_collected-Quiet)

    poll_round-Quiet :
        (box : SandboxSessionState) (deadline : ℕ) (rest : Action (World H) Collected)
        → Keeps (Observed run Good P) rest
        → Keeps (Observed run Good P) (poll_round run env host parse from_base64 box deadline rest)
    poll_round-Quiet box deadline rest kept =
        search (quiet_rules, poll_once-Quiet, with_journal-Quiet)

    pub poll-Quiet :
        (fuel : ℕ) (box : SandboxSessionState) (deadline : ℕ)
        → Keeps (Observed run Good P) (poll run env host parse from_base64 fuel box deadline)
    unfolding poll
    poll-Quiet zero box deadline = search quiet_rules
    poll-Quiet (suc fuel) box deadline =
        poll_round-Quiet box deadline _ (poll-Quiet fuel box deadline)

    pub on_failure-Quiet :
        (e : RuntimeError)
        → Keeps (Observed run Good P) (on_failure run env host parse from_base64 e)
    unfolding on_failure
    on_failure-Quiet e = search (quiet_rules, pause_idle-Quiet) depth 8
