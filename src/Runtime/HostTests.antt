-- ===== src/Runtime/HostTests.antt =====
-- A native command of a turn of the store, in the sandbox that an earlier worker has left.
use nimplex.Prelude.{◌≡◌, ◌⊎◌, false, none, some, [], any, Bool, ◌≤◌}
use nimplex.Store.Records.{SandboxSessionState, e2b}
use nimplex.Store.Tables.{Database}
use nimplex.Store.Events.{IsLog, log}
use nimplex.Store.Samples.{clock, store, store-IsLog}
use nimplex.Native.Host.{World, is_dispatch, supervise}
use nimplex.Native.Launch.{job_of}
use nimplex.Native.Bash.{native_bash}
use nimplex.Native.Samples.{worker, box, limits, parse, no_bytes}
use nimplex.Native.Once.{native_bash-IsOnce}
use nimplex.Native.Fit.{IsHeld}
use nimplex.Native.Workers.{begun, called, starts, Reaches-once}
use nimplex.Runtime.Executing.{Execution, turn_host}
use nimplex.Runtime.Hosting.{turn_host-NativeHostLaws}

abbrev execution : Execution
execution = record {
  id = "t1";
  session_id = "s1";
  sandbox = e2b;
  max_run_ms = none;
  aborted = λ n. false;
  closed = λ n. false;
  clock = λ n. n;
  now = clock;
  number_value = λ s. 2;
  json_text = λ j. "sandbox";
}

abbrev taken_over : World Database
taken_over = record {
  state = some box;
  session = none;
  active = none;
  host = store;
  runs = [];
  tick = 0;
}

abbrev after : World Database
after =
    (native_bash (turn_host execution) worker limits parse no_bytes 20000 100 "call" taken_over).1

native_bash-IsOnce_example :
    (after.runs ≡ [])
    ⊎ ((s : SandboxSessionState) × ((any (is_dispatch "call") (log "t1" store) ≡ false)
          ⊎ IsHeld taken_over s)
        × (after.runs ≡ supervise s.workdir (job_of (turn_host execution) worker "call") [])
        × (any (is_dispatch "call") (log "t1" after.host) ≡ Bool.true))
unfolding turn_host
native_bash-IsOnce_example =
    native_bash-IsOnce (turn_host execution) worker limits parse no_bytes 20000 100 "call"
      taken_over IsLog (turn_host-NativeHostLaws execution) store-IsLog

Reaches-once_example : starts "/workspace" "/tmp/nimplex-runtime-r1/r1:call" after.runs ≤ 1
Reaches-once_example =
    Reaches-once (turn_host execution) IsLog limits parse no_bytes "/workspace"
      "/tmp/nimplex-runtime-r1/r1:call" (turn_host-NativeHostLaws execution)
      (called worker 20000 100 "call" taken_over (begun store store-IsLog))
