-- ===== src/Native/Tests.antt =====
-- A worker that takes over a turn: it finds the turn's sandbox, launches the command twice since the
-- answer to the first launch is lost, and collects the journal.
use nimplex.Prelude.{◌≡◌, refl, true, none, some, List, [], ◌∷◌, ◌++◌, Result, ok, arith}
use nimplex.Store.Members.{get_member}
use nimplex.Store.Records.{SandboxSessionState, ExecutorEvent, RuntimeError}
use nimplex.Checkpoints.Steps.{check_workspace_limits}
use nimplex.Native.Actions.{◌>>=◌}
use nimplex.Native.Host.{Resumption, Surroundings, NativeHost, World, supervise}
use nimplex.Native.Session.{ask, call, pause_idle, resume_session, open_session, reconnect}
use nimplex.Native.Launch.{dispatch, dispatch_event}
use nimplex.Native.Journal.{Collected, collect, decode_files, parts_of}
use nimplex.Native.Bash.{native_bash, poll, poll_once, run_command, on_failure, after_call}
use nimplex.Native.Idle.{native_bash-idle}
use nimplex.Native.Deadline.{poll-bounded}
use nimplex.Native.Confined.{IsConfined, collect-IsConfined}
use nimplex.Native.Samples.{e2b_like, finished, worker, box, limits, parse, no_bytes}

-- a host that is its log
abbrev done : List ExecutorEvent → Result RuntimeError (Unit {0}) × List ExecutorEvent
done h = (ok tt, h)

abbrev log_host : NativeHost (List ExecutorEvent)
log_host = record {
  assert_active = λ n h. done h;
  record_state = λ s reset at n h. done h;
  sandbox_transition = λ t at n h. done h;
  sandbox_discarded = λ s at stopped n h. done h;
  append_events = λ es n h. done (h ++ es);
  read_events = λ h. h;
  generation = λ h. 1;
  should_destroy_on_abort = λ h. true;
}

abbrev taken_over : World (List ExecutorEvent)
taken_over = record {
  state = some box;
  session = none;
  active = none;
  host = [];
  runs = [];
  tick = 0;
}

abbrev ended : Result RuntimeError Collected × World (List ExecutorEvent)
ended = native_bash log_host worker limits parse no_bytes 20000 100 "call" taken_over

launched_once : ended.1.runs ≡ ("/workspace", "/tmp/nimplex-runtime-r1/r1:call") ∷ []
unfolding native_bash resume_session open_session run_command dispatch reconnect poll poll_once
    pause_idle on_failure after_call ask call supervise get_member collect decode_files ◌>>=◌
    check_workspace_limits parts_of
launched_once = refl

native_bash-idle_example :
    (native_bash log_host worker limits parse no_bytes 20000 100 "call" taken_over).1.session ≡ none
native_bash-idle_example =
    native_bash-idle log_host worker limits parse no_bytes 20000 100 "call" taken_over refl
      (λ n. refl) refl

poll-bounded_example :
    poll log_host worker limits parse no_bytes 101 box 100 taken_over
    ≡ poll log_host worker limits parse no_bytes 20000 box 100 taken_over
poll-bounded_example =
    poll-bounded log_host worker limits parse no_bytes box 100 100 101 20000 taken_over (λ n h. h)
      (omega arith) (omega arith)

abbrev collected : Collected
collected = record {
  result = finished;
  workspace = record { files = ("/workspace/a", []) ∷ []; metadata = [] };
}

collect-IsConfined_example : IsConfined limits parse no_bytes collected
unfolding collect decode_files parts_of check_workspace_limits
collect-IsConfined_example = collect-IsConfined limits parse no_bytes "done" collected refl

-- A command that was dispatched to a sandbox that is lost: the call that makes another sandbox refuses
-- it, and a worker that takes over before the refusal is stored starts it in that other sandbox.
abbrev new_box : SandboxSessionState
new_box = record box { workdir = "/new" }

abbrev lost_sandbox : Surroundings
lost_sandbox = record worker {
  provider = record e2b_like { create = λ n. some new_box; resume = λ n. Resumption.missing };
}

abbrev dispatched : World (List ExecutorEvent)
dispatched = record taken_over { host = dispatch_event log_host worker "call" 1 ∷ [] }

abbrev refusal : World (List ExecutorEvent)
refusal = (native_bash log_host lost_sandbox limits parse no_bytes 20000 100 "call" dispatched).1

abbrev takeover : World (List ExecutorEvent)
takeover =
    (native_bash log_host worker limits parse no_bytes 20000 100 "call"
      (record refusal { tick = 0 })).1

refused_first : refusal.runs ≡ []
unfolding native_bash resume_session open_session run_command dispatch reconnect poll poll_once
    pause_idle on_failure after_call ask call supervise get_member collect decode_files ◌>>=◌
    check_workspace_limits parts_of
refused_first = refl

started_later : takeover.runs ≡ ("/new", "/tmp/nimplex-runtime-r1/r1:call") ∷ []
unfolding native_bash resume_session open_session run_command dispatch reconnect poll poll_once
    pause_idle on_failure after_call ask call supervise get_member collect decode_files ◌>>=◌
    check_workspace_limits parts_of
started_later = refl
