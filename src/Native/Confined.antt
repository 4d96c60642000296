-- ===== src/Native/Confined.antt =====
-- What a collected journal is sure to be, whatever the sandbox has written.
use nimplex.Prelude.{
  String, ◌≡◌, subst, ok-injective, true, Option, none, some, [], ◌∷◌, All, leb→le, ◌+◌, ◌≤◌,
  length, ok, >>=-eq-ok, guard, guard-eq-ok, arith,
}
use nimplex.Prelude.Dict.{Dict}
use nimplex.Prelude.Texts.{text_length}
use nimplex.Store.Records.{Bytes, EntryMetadata, refused}
use nimplex.Checkpoints.Steps.{
  Host, check_workspace_limits, all_paths, sum_bytes, workspace_max_files, workspace_max_bytes,
}
use nimplex.Native.Journal.{
  Journal, failure, payload, accept_parsed, Collected, is_workspace_path, is_payload, decode_files,
  accept, collect, max_output,
}

abbrev pub HasWorkspacePath : String × Bytes → Type 0
HasWorkspacePath file = is_workspace_path file.0 ≡ true

module _ (host : Host) (parse : String → Option Journal) (from_base64 : String → Bytes) where
  decode_files-HasWorkspacePath :
      (files : Dict String) (decoded : Dict Bytes)
      → decode_files host parse from_base64 files ≡ ok decoded
      → All HasWorkspacePath decoded
  unfolding decode_files
  decode_files-HasWorkspacePath [] decoded h = subst (All HasWorkspacePath) (ok-injective h) tt
  decode_files-HasWorkspacePath ((path, content) ∷ rest) decoded h =
      let (u, inside, h') =
        >>=-eq-ok (guard (is_workspace_path path) (refused "invalid sandbox workspace path")) _ h in
      let (after, decodes, h'') = >>=-eq-ok (decode_files host parse from_base64 rest) _ h' in
      subst (All HasWorkspacePath) (ok-injective h'') (
        guard-eq-ok _ (refused "invalid sandbox workspace path") inside,
        decode_files-HasWorkspacePath rest after decodes,
      )

  limits_hold :
      (files : Dict Bytes) (metadata : Dict EntryMetadata)
      → check_workspace_limits host files metadata ≡ ok tt
      → (length (all_paths files metadata) ≤ workspace_max_files)
        × (host.metadata_length metadata + sum_bytes (all_paths files metadata) files
            ≤ workspace_max_bytes)
  unfolding check_workspace_limits
  limits_hold files metadata h = (ground (arith, h), ground (arith, h))

  -- what the schema, the paths and the limits make sure of
  abbrev pub IsConfined : Collected → Type 0
  IsConfined c =
      All HasWorkspacePath c.workspace.files
      × (length (all_paths c.workspace.files c.workspace.metadata) ≤ workspace_max_files)
      × (host.metadata_length c.workspace.metadata
            + sum_bytes (all_paths c.workspace.files c.workspace.metadata) c.workspace.files
          ≤ workspace_max_bytes)
      × (text_length c.result.stdout ≤ max_output)
      × (text_length c.result.stderr ≤ max_output)

  accept-IsConfined :
      (j : Journal) (c : Collected) → accept host parse from_base64 j ≡ ok c → IsConfined c
  accept-IsConfined (failure e) c h = cc
  accept-IsConfined (payload p) c h =
      let (u, fits, h1) = >>=-eq-ok (guard (is_payload p) (refused "invalid journal")) _ h in
      let (files, decodes, h2) = >>=-eq-ok (decode_files host parse from_base64 p.files) _ h1 in
      let (v, limited, h3) = >>=-eq-ok (check_workspace_limits host files p.metadata) _ h2 in
      let sized = guard-eq-ok _ (refused "invalid journal") fits in
      let (few, small) = limits_hold files p.metadata limited in
      subst IsConfined (ok-injective h3) (
        decode_files-HasWorkspacePath p.files files decodes,
        few,
        small,
        leb→le _ _ (ground (arith, sized)),
        leb→le _ _ (ground (arith, sized)),
      )

  parsed-IsConfined :
      (j : Option Journal) (c : Collected)
      → accept_parsed host parse from_base64 j ≡ ok c
      → IsConfined c
  parsed-IsConfined none c h = cc
  parsed-IsConfined (some j) c h = accept-IsConfined j c h

-- A journal that is collected has files only under /workspace and with no `..` in their paths, at most the
-- workspace's number of entries and of bytes, and outputs within the schema's limit, whatever text the
-- sandbox has written.
pub collect-IsConfined :
    (host : Host) (parse : String → Option Journal) (from_base64 : String → Bytes) (raw : String)
    (c : Collected)
    → collect host parse from_base64 raw ≡ ok c
    → IsConfined host parse from_base64 c
unfolding collect
collect-IsConfined host parse from_base64 raw c h =
    parsed-IsConfined host parse from_base64 (parse raw) c h
