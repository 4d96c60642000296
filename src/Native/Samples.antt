-- ===== src/Native/Samples.antt =====
-- A worker with a provider that can pause, whose answer to one launch is lost, and a journal.
use nimplex.Prelude.{◌==◌, String, true, false, Option, none, some, [], ◌∷◌, str_eq, if◌then◌else◌}
use nimplex.Storage.Records.{object, end}
use nimplex.Store.Records.{SandboxSessionState, Bytes}
use nimplex.Checkpoints.Steps.{Host}
use nimplex.Native.Host.{ExecResult, Resumption, Provider, Surroundings}
use nimplex.Native.Journal.{Journal, Payload, payload}

abbrev pub finished : ExecResult
finished = record { exit_code = some 0; stdout = "done"; stderr = ""; timed_out = false }

abbrev pub e2b_like : Provider
e2b_like = record {
  backend_id = "e2b";
  can_pause = true;
  unavailable_reason = λ n. none;
  create = λ n. none;
  resume = λ n. Resumption.resumed;
  exec = λ n. if n == 9 then none else some finished;
  reaches = λ n. true;
  write_file = λ n. true;
  pause = λ n. true;
  stop = λ n. true;
  delete = λ n. true;
}

abbrev pub worker : Surroundings
worker = record {
  run_id = "r1";
  is_local = false;
  provider = e2b_like;
  aborted = λ n. false;
  clock = λ n. n;
  name = λ s. s.workdir;
  sha256 = λ s. s;
  number_text = λ n. "1";
}

abbrev pub box : SandboxSessionState
box = record {
  version = 1;
  backend_id = "e2b";
  provider_state = object end;
  workdir = "/workspace";
}

abbrev pub limits : Host
limits = record { metadata_length = λ d. 0; sha256 = λ b. ""; now = λ n. "" }

abbrev pub journal : Payload
journal = record { result = finished; files = ("/workspace/a", "") ∷ []; metadata = [] }

abbrev pub parse : String → Option Journal
parse s = if str_eq s "done" then some (payload journal) else none

abbrev pub no_bytes : String → Bytes
no_bytes s = []
