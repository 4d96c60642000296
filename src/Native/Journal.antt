-- ===== src/Native/Journal.antt =====
-- The journal of a finished command, which is untrusted: its schema, its paths and its size.
use nimplex.Prelude.{
  ℕ, String, Bool, not, ◌&&◌, ◌==◌, Option, none, some, List, [], ◌∷◌, any, str_eq, if◌then◌else◌,
  leb, Result, ok, err, ◌>>=◌, ◌>>◌, guard,
}
use Prim.Native.Char.{code}
use text.Mathlib.Text.{starts_with}
use nimplex.Prelude.Dict.{Dict}
use nimplex.Prelude.Texts.{text_length, text_take}
use nimplex.Store.Records.{EntryMetadata, Bytes, Workspace, RuntimeError, refused}
use nimplex.Checkpoints.Steps.{Host, check_workspace_limits}
use nimplex.Native.Host.{ExecResult}

-- `path.split("/")`: the first part, and the others
unfoldable pub parts_of : String → String × List String
parts_of String.[] = (String.[], [])
parts_of (String.◌∷◌ c s) =
    let (part, rest) = parts_of s in
    if code c == b'/' then (String.[], part ∷ rest) else (String.◌∷◌ c part, rest)

abbrev pub climbs : String → Bool
unfolding parts_of
climbs path = let (part, rest) = parts_of path in any (λ p. str_eq p "..") (part ∷ rest)

abbrev pub is_workspace_path : String → Bool
is_workspace_path path = starts_with path "/workspace/" && not (climbs path)

-- `journalResult`, and the supervisor's `{ error }`; a file's content is text in base64.
pub record Payload : Type 0 where
  pub result : ExecResult
  pub files : Dict String
  pub metadata : Dict EntryMetadata

pub data Journal : Type 0 where
  failure : String → Journal
  payload : Payload → Journal

-- the schema's limits on the output
abbrev pub max_output : ℕ
max_output = 1048576

abbrev pub is_payload : Payload → Bool
is_payload p =
    leb (text_length p.result.stdout) max_output && leb (text_length p.result.stderr) max_output

pub record Collected : Type 0 where
  pub result : ExecResult
  pub workspace : Workspace

-- `JSON.parse` with the shapes of the two schemas, and the decoding of base64.
module _ (host : Host) (parse : String → Option Journal) (from_base64 : String → Bytes) where
  unfoldable pub decode_files : Dict String → Result RuntimeError (Dict Bytes)
  decode_files [] = ok []
  decode_files ((path, content) ∷ rest) = do
    guard (is_workspace_path path) (refused "invalid sandbox workspace path")
    after ← decode_files rest
    ok ((path, from_base64 content) ∷ after)

  abbrev pub accept : Journal → Result RuntimeError Collected
  accept (failure e) = err (refused (text_take 12000 e))
  accept (payload p) = do
    guard (is_payload p) (refused "invalid journal")
    files ← decode_files p.files
    check_workspace_limits host files p.metadata
    ok (record { result = p.result; workspace = record { files = files; metadata = p.metadata } })

  abbrev pub accept_parsed : Option Journal → Result RuntimeError Collected
  accept_parsed none = err (refused "invalid journal")
  accept_parsed (some j) = accept j

  unfoldable pub collect : String → Result RuntimeError Collected
  unfolding decode_files check_workspace_limits text_length text_take
  collect raw = accept_parsed (parse raw)
