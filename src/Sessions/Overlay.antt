-- ===== src/Sessions/Overlay.antt =====
-- The attachments of a request lie over the files that its turn inherits.
use nimplex.Prelude.{
  String, ◌≡◌, ◌∙◌, sym, ap, not, Option, some, List, [], ◌∷◌, if◌then◌else◌, leb, str_eq, ok,
  >>=-eq-ok, ok-injective, guard,
}
use Prim.Native.String.{len}
use nimplex.Prelude.Texts.{encode}
use nimplex.Prelude.Dict.{lookup, lookup-insert}
use nimplex.Store.Records.{Attachment, Workspace, refused}
use nimplex.Sessions.Attachments.{
  PosixPath, attach, attach_all, attached, write_attachment, is_attachment_path, clear_above,
  is_other, holds_below,
}

-- what the last attachment at a path says of it, or what was there
abbrev pub overlaid {ℓ} :
    {V : Type ℓ} → (Attachment → V) → String → List Attachment → Option V → Option V
overlaid f q [] o = o
overlaid f q (a ∷ rest) o = overlaid f q rest (if str_eq a.path q then some (f a) else o)

module _ (posix : PosixPath) where
  attach-write :
      (a : Attachment) (w w' : Workspace) → attach posix a w ≡ ok w' → write_attachment a w ≡ w'
  unfolding attach
  attach-write a w w' h =
      let (_, _, h1) =
        >>=-eq-ok (guard (is_attachment_path posix a.path) (refused "Invalid attachment path.")) _
          h in
      let (_, _, h2) =
        >>=-eq-ok (guard (leb (len a.content) 131072) (refused "Attachment exceeds 128 KiB.")) _
          h1 in
      let (_, _, h3) = >>=-eq-ok (clear_above posix w a.path) _ h2 in
      let (_, _, h4) =
        >>=-eq-ok
          (guard (not (is_other (lookup a.path w.metadata)))
            (refused "Attachment conflicts with an existing directory or symlink."))
          _ h3 in
      let (_, _, h5) =
        >>=-eq-ok
          (guard (not (holds_below a.path w))
            (refused "Attachment conflicts with an existing directory."))
          _ h4 in
      ok-injective h5

  -- Attaching that returns has put every attachment, the last one at its path, over the workspace, as
  -- a plain file with the content's UTF-8, and has left every other path alone.
  pub lookup-attach_all :
      (rest : List Attachment) (w w' : Workspace) (q : String)
      → attach_all posix rest w ≡ ok w'
      → (lookup q w'.files ≡ overlaid (λ a. encode a.content) q rest (lookup q w.files))
        × (lookup q w'.metadata ≡ overlaid (λ a. attached) q rest (lookup q w.metadata))
  unfolding attach_all
  lookup-attach_all [] w w' q h =
      let same = ok-injective h in
      (ap (λ x. lookup q x.files) (sym same), ap (λ x. lookup q x.metadata) (sym same))
  lookup-attach_all (a ∷ rest) w w' q h =
      let (w1, first, h1) = >>=-eq-ok (attach posix a w) _ h in
      let (files, metadata) = lookup-attach_all rest w1 w' q h1 in
      let wrote = attach-write a w w1 first in
      (
        files
            ∙ ap (overlaid (λ x. encode x.content) q rest) (
                ap (λ x. lookup q x.files) (sym wrote)
                ∙ lookup-insert a.path q (encode a.content) w.files),
        metadata
            ∙ ap (overlaid (λ x. attached) q rest) (
                ap (λ x. lookup q x.metadata) (sym wrote)
                ∙ lookup-insert a.path q attached w.metadata),
      )
