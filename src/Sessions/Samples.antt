-- ===== src/Sessions/Samples.antt =====
-- A session whose turn has ended, the host of a new one and its request.
use nimplex.Prelude.{true, some, [], ◌∷◌}
use nimplex.Status.{completed}
use nimplex.Store.Records.{Attachment, StartTurnRequest}
use nimplex.Store.Tables.{Database}
use nimplex.Store.Events.{IsLog}
use nimplex.Store.Samples.{clock, request, turn_in, new_store}
use nimplex.Sessions.Attachments.{PosixPath}
use nimplex.Sessions.Seeding.{SeedHost, Fresh}

-- a host whose paths have no `.` or `..` and stand right below the workspace
abbrev pub posix : PosixPath
posix = record { normalize = λ p. p; dirname = λ p. "/workspace" }

abbrev pub host : SeedHost
host = record {
  steps = record { metadata_length = λ m. 2; sha256 = λ b. "digest"; now = clock };
  posix = posix;
  catalog =
      record { provider = "openai"; id = "gpt-5" }
      ∷ record { provider = "anthropic"; id = "claude-haiku-4-5" }
      ∷ [];
  is_nonzero = λ n. true;
}

abbrev pub fresh : Fresh
fresh = record { id = "t2"; request_id = "r9"; at = "2026-01-02T00:00:00.000Z" }

abbrev pub note : Attachment
note = record { path = "/workspace/note.txt"; content = "hi" }

abbrev pub follow_up : StartTurnRequest
follow_up = record request {
  request_id = some "r2";
  prompt = "and the docs";
  model = "claude-haiku-4-5";
  attachments = some (note ∷ []);
}

abbrev pub ended_store : Database
ended_store = record new_store { turns = ("t1", turn_in completed) ∷ [] }

pub ended_store-IsLog : IsLog ended_store
ended_store-IsLog = record { dense = λ id. tt }
