-- ===== src/Checkpoints/Steps.antt =====
-- `startModelIn`, `commitModelIn`, `commitToolIn`, `createCheckpoints`, `checkWorkspaceLimits`.
use nimplex.Prelude.{
  ℕ, ◌+◌, ◌*◌, ◌/◌, String, Bool, true, false, ◌&&◌, Option, none, some, List, [], ◌∷◌, ◌++◌, map,
  any, length, if◌then◌else◌, ltb, ◌==◌, str_eq, Result, ok, err, ◌>>=◌, ◌>>◌, guard,
}
use nimplex.Prelude.Dict.{Dict, lookup, keys, unique}
use nimplex.Status.{running, status_eq}
use nimplex.Storage.Records.{Json}
use nimplex.Store.Records.{
  Bytes, EntryMetadata, FileChange, ExecutorEvent, model_started, model_reserved, spend_updated,
  tool_started, file_changed, workspace_committed, context_checkpoint, RunEvent, StoredTurn,
  RuntimeError, invalid_cost, unknown_attempt, turn_is, too_many_files, too_many_bytes,
}
use nimplex.Store.Tables.{
  Database, transaction, turn, save_turn, events, append, workspace, save_workspace,
}

abbrev pub workspace_max_bytes : ℕ
workspace_max_bytes = 32 * 1024 * 1024

abbrev pub workspace_max_files : ℕ
workspace_max_files = 2000

-- `files[p]?.byteLength ?? 0`
abbrev pub byte_length : Option Bytes → ℕ
byte_length none = 0
byte_length (some b) = length b

unfoldable pub sum_bytes : List String → Dict Bytes → ℕ
unfolding lookup
sum_bytes [] files = 0
sum_bytes (p ∷ paths) files = byte_length (lookup p files) + sum_bytes paths files

abbrev pub all_paths : Dict Bytes → Dict EntryMetadata → List String
all_paths files metadata = unique (keys files ++ keys metadata)

-- What the steps take from the runtime: the length of the metadata's JSON text, the SHA-256 of
-- some bytes, and the clock.
pub record Host : Type 0 where
  pub metadata_length : Dict EntryMetadata → ℕ
  pub sha256 : Bytes → String
  pub now : ℕ → String

-- A model call's cost is a whole number of 10⁻¹⁴ dollars, or not a valid cost.
pub data CallCost : Type 0 where
  cost : ℕ → CallCost
  not_a_cost : CallCost

-- `Math.ceil(cost * 1e6 - 1e-8)`, in micro-dollars
unfoldable pub rounded_cost : ℕ → ℕ
rounded_cost n = (n + 99999998) / 100000000

unfoldable pub active_turn : String → Database → Result RuntimeError StoredTurn
active_turn id db = do
  t ← turn id db
  guard (status_eq t.result.status running) (turn_is t.result.status)
  ok t

abbrev pub is_attempt : String → ExecutorEvent → Bool
is_attempt call_id (model_started c extra) = str_eq c call_id
is_attempt call_id (model_reserved c) = str_eq c call_id
is_attempt call_id _ = false

abbrev pub is_settled : String → ExecutorEvent → Bool
is_settled call_id (spend_updated c spent uncertain) = str_eq c call_id
is_settled call_id _ = false

abbrev pub add_spent : StoredTurn → ℕ → StoredTurn
add_spent t n = record t { result = record t.result { spent_usd = t.result.spent_usd + n } }

abbrev pub revision_of : StoredTurn → ℕ
revision_of t = elim t.result.workspace_revision [ none ↦ 0 | some r ↦ r ]

abbrev pub set_revision : StoredTurn → ℕ → StoredTurn
set_revision t n = record t { result = record t.result { workspace_revision = some n } }

unfoldable pub bytes_eq : Bytes → Bytes → Bool
bytes_eq [] [] = true
bytes_eq [] (y ∷ ys) = false
bytes_eq (x ∷ xs) [] = false
bytes_eq (x ∷ xs) (y ∷ ys) = (x == y) && bytes_eq xs ys

module _ (host : Host) where
  unfoldable pub check_workspace_limits :
      Dict Bytes → Dict EntryMetadata → Result RuntimeError (Unit {0})
  unfolding sum_bytes unique
  check_workspace_limits files metadata =
      let paths = all_paths files metadata in
      let total = host.metadata_length metadata + sum_bytes paths files in
      if ltb workspace_max_files (length paths)
      then err (too_many_files (length paths))
      else if ltb workspace_max_bytes total
      then err (too_many_bytes total)
      else ok tt

  -- `startModelIn`, with the random call id
  unfoldable pub start_model_in :
      String → String → Json → Database → Result RuntimeError (String × Database)
  start_model_in id call_id extra db = do
    t ← active_turn id db
    ok (call_id, append host.now id (model_started call_id extra ∷ []) db)

  -- the rest of `commitModelIn` once the attempt is known and not settled
  unfoldable pub settle_model :
      String → String → List ExecutorEvent → ℕ → Bool → Database → Result RuntimeError Database
  settle_model id call_id es n uncertain db = do
    t ← turn id db
    let t' = add_spent t (rounded_cost n)
    ok (
        save_turn t'
          (append host.now id (es ++ spend_updated call_id t'.result.spent_usd uncertain ∷ []) db))

  unfoldable pub commit_model_in :
      String
      → String
      → List ExecutorEvent
      → CallCost
      → Bool
      → Database
      → Result RuntimeError Database
  commit_model_in id call_id es not_a_cost uncertain db = err invalid_cost
  commit_model_in id call_id es (cost n) uncertain db =
      let history = map (λ (e : RunEvent). e.event) (events id none db) in
      if any (is_attempt call_id) history
      then if any (is_settled call_id) history
        then ok db
        else settle_model id call_id es n uncertain db
      else err unknown_attempt

  abbrev pub written : ℕ → String → Bytes → List FileChange
  written revision path b =
      record {
        path = path;
        content = some b;
        bytes = length b;
        sha256 = some (host.sha256 b);
        revision = revision;
      }
      ∷ []

  -- one path of the delta, by its bytes after and before: nothing where they are the same
  unfoldable pub path_change : ℕ → String → Option Bytes → Option Bytes → List FileChange
  unfolding bytes_eq
  path_change revision path none prior =
      record { path = path; content = none; bytes = 0; sha256 = none; revision = revision } ∷ []
  path_change revision path (some b) none = written revision path b
  path_change revision path (some b) (some a) = if bytes_eq a b then [] else written revision path b

  unfoldable pub path_changes : Dict Bytes → Dict Bytes → ℕ → List String → List FileChange
  unfolding path_change lookup
  path_changes before files revision [] = []
  path_changes before files revision (p ∷ paths) =
      path_change revision p (lookup p files) (lookup p before)
      ++ path_changes before files revision paths

  unfoldable pub file_changes : Dict Bytes → Dict Bytes → ℕ → List FileChange
  unfolding path_changes
  file_changes before files revision =
      path_changes before files revision (unique (keys before ++ keys files))

  unfoldable pub commit_tool_in :
      String
      → List ExecutorEvent
      → Dict Bytes
      → Dict EntryMetadata
      → Database
      → Result RuntimeError Database
  commit_tool_in id es files metadata db = do
    t ← active_turn id db
    check_workspace_limits files metadata
    before ← workspace (some id) db
    let revision = revision_of t + 1
    let changes = map file_changed (file_changes before.files files revision)
    ok (
        append host.now id (es ++ changes ++ workspace_committed revision metadata ∷ []) (
          save_turn (set_revision t revision)
            (save_workspace id (record { files = files; metadata = metadata }) db)))

  -- `createCheckpoints`: each step in a transaction of its own
  abbrev unit_step : Result RuntimeError Database → Result RuntimeError (Unit {0} × Database)
  unit_step r = do db ← r; ok (tt, db)

  unfoldable pub checkpoint_context :
      Bool → String → Json → Database → Result RuntimeError (Unit {0}) × Database
  checkpoint_context closed id checkpoint = transaction closed λ db. do
    t ← active_turn id db
    ok (tt, append host.now id (context_checkpoint checkpoint ∷ []) db)

  unfoldable pub start_model :
      Bool → String → String → Database → Result RuntimeError String × Database
  start_model closed id call_id = transaction closed (start_model_in id call_id Json.null)

  unfoldable pub commit_model :
      Bool
      → String
      → String
      → List ExecutorEvent
      → CallCost
      → Bool
      → Database
      → Result RuntimeError (Unit {0}) × Database
  commit_model closed id call_id es c uncertain =
      transaction closed (λ db. unit_step (commit_model_in id call_id es c uncertain db))

  unfoldable pub start_tool :
      Bool → String → String → String → Database → Result RuntimeError (Unit {0}) × Database
  start_tool closed id tool_id name = transaction closed λ db. do
    t ← active_turn id db
    ok (tt, append host.now id (tool_started tool_id name ∷ []) db)

  unfoldable pub commit_tool :
      Bool
      → String
      → List ExecutorEvent
      → Dict Bytes
      → Dict EntryMetadata
      → Database
      → Result RuntimeError (Unit {0}) × Database
  commit_tool closed id es files metadata =
      transaction closed (λ db. unit_step (commit_tool_in id es files metadata db))
