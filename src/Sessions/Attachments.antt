-- ===== src/Sessions/Attachments.antt =====
-- `seedTurn`'s loop over the attachments, which writes them into the new turn's workspace.
use nimplex.Prelude.{
  ℕ, zero, suc, String, Bool, true, false, not, ◌&&◌, ◌||◌, Option, none, some, List, [], ◌∷◌, ◌++◌,
  any, if◌then◌else◌, leb, str_eq, Result, ok, err, ◌>>=◌, ◌>>◌, guard,
}
use Prim.Native.String.{len, ◌++◌ as ◌<>◌}
use text.Mathlib.Text.{starts_with}
use nimplex.Prelude.Texts.{includes, ends_with, encode}
use nimplex.Prelude.Dict.{lookup, insert, keys}
use nimplex.Store.Records.{
  Attachment, file, directory, symlink, EntryMetadata, Workspace, RuntimeError, refused,
}

-- `posix.normalize` and `posix.dirname`, of node:path.
pub record PosixPath : Type 0 where
  pub normalize : String → String
  pub dirname : String → String

abbrev pub is_some : {A : Type 0} → Option A → Bool
is_some none = false
is_some (some a) = true

abbrev pub is_symlink : Option EntryMetadata → Bool
is_symlink none = false
is_symlink (some m) = elim m.kind [ file ↦ false | directory ↦ false | symlink ↦ true ]

-- an entry that is there and is not a file
abbrev pub is_other : Option EntryMetadata → Bool
is_other none = false
is_other (some m) = elim m.kind [ file ↦ false | directory ↦ true | symlink ↦ true ]

-- an ancestor of an attachment that is no directory
abbrev pub is_blocked : Workspace → String → Bool
is_blocked w ancestor = is_some (lookup ancestor w.files) || is_symlink (lookup ancestor w.metadata)

abbrev pub attached : EntryMetadata
attached = record { kind = file; mode = 420; target = none }

-- an entry below the path
abbrev pub holds_below : String → Workspace → Bool
holds_below path w =
    any (λ existing. starts_with existing (path <> "/")) (keys w.files ++ keys w.metadata)

abbrev pub write_attachment : Attachment → Workspace → Workspace
write_attachment a w = record {
  files = insert a.path (encode a.content) w.files;
  metadata = insert a.path attached w.metadata;
}

module _ (posix : PosixPath) where
  -- the loop up the ancestors; `none` where the fuel runs out
  unfoldable pub ancestors_blocked : ℕ → Workspace → String → Option Bool
  ancestors_blocked zero w ancestor = none
  ancestors_blocked (suc fuel) w ancestor =
      let rest = ancestors_blocked fuel w (posix.dirname ancestor) in
      if str_eq ancestor "/workspace"
      then some false
      else if is_blocked w ancestor
      then some true
      else rest

  abbrev pub is_attachment_path : String → Bool
  is_attachment_path path =
      starts_with path "/workspace/"
      && str_eq (posix.normalize path) path
      && not (includes path "\0")
      && not (ends_with path "/")

  abbrev pub clear_above : Workspace → String → Result RuntimeError (Unit {0})
  clear_above w path = elim (ancestors_blocked (len path) w (posix.dirname path)) [
    | none ↦ err (refused "Attachment has no directory.")
    | some blocked ↦ guard (not blocked) (refused "Attachment parent is not a directory.")
  ]

  -- one round of the loop
  unfoldable pub attach : Attachment → Workspace → Result RuntimeError Workspace
  unfolding lookup encode insert ancestors_blocked
  attach a w = do
    guard (is_attachment_path a.path) (refused "Invalid attachment path.")
    guard (leb (len a.content) 131072) (refused "Attachment exceeds 128 KiB.")
    clear_above w a.path
    guard (not (is_other (lookup a.path w.metadata)))
        (refused "Attachment conflicts with an existing directory or symlink.")
    guard (not (holds_below a.path w)) (refused "Attachment conflicts with an existing directory.")
    ok (write_attachment a w)

  unfoldable pub attach_all : List Attachment → Workspace → Result RuntimeError Workspace
  attach_all [] w = ok w
  attach_all (a ∷ rest) w = do w' ← attach a w; attach_all rest w'
