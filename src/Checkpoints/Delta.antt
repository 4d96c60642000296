-- ===== src/Checkpoints/Delta.antt =====
-- The `file.changed` events of a tool commit are the whole difference between two workspaces.
use nimplex.Prelude.{
  ℕ, ◌+◌, String, ◌≡◌, refl, ◌∙◌, ◌⊎◌, inl, inr, Option, none, some, List, [], ◌∷◌, ◌++◌,
  Bool-cases, if◌then◌else◌, str_eq, eq_iff, eq_refl, arith, ap, sym, ok, >>=-eq-ok, ok-injective,
  map,
}
use nimplex.Prelude.Dict.{
  Dict, lookup, insert, erase, keys, unique, contains, lookup-insert, lookup-erase, lookup-keys,
  contains-unique, contains-append,
}
use nimplex.Store.Records.{
  Bytes, FileChange, ExecutorEvent, EntryMetadata, StoredTurn, Workspace, file_changed,
  workspace_committed,
}
use nimplex.Checkpoints.Minimal.{bytes_eq-eq, IsMinimal, file_changes-IsMinimal}
use nimplex.Store.Tables.{Database, workspace, save_workspace, save_turn}
use nimplex.Store.Events.{
  IsLog, log, log-append, log-save_turn, save_turn-IsLog, save_workspace-IsLog, log-save_workspace,
  workspace-append,
}
use nimplex.Checkpoints.Steps.{
  Host, bytes_eq, path_change, path_changes, file_changes, commit_tool_in, active_turn,
  check_workspace_limits, revision_of, set_revision,
}

-- A reader of the log that replays one change, and all of them.
pub apply_change : FileChange → Dict Bytes → Dict Bytes
apply_change c files = elim c.content [ none ↦ erase c.path files | some b ↦ insert c.path b files ]

pub apply_changes : List FileChange → Dict Bytes → Dict Bytes
apply_changes [] files = files
apply_changes (c ∷ cs) files = apply_changes cs (apply_change c files)

apply_changes-append :
    (cs ds : List FileChange) (files : Dict Bytes)
    → apply_changes (cs ++ ds) files ≡ apply_changes ds (apply_changes cs files)
unfolding apply_changes
apply_changes-append [] ds files = refl
apply_changes-append (c ∷ cs) ds files = apply_changes-append cs ds (apply_change c files)

module _ (host : Host) (revision : ℕ) where
  -- Where the files have the prior bytes or already the later ones at a path, its change gives them the later bytes there and
  -- leaves every other path alone.
  lookup-path_change :
      (p q : String) (after prior : Option Bytes) (files : Dict Bytes)
      → (lookup p files ≡ prior) ⊎ (lookup p files ≡ after)
      → lookup q (apply_changes (path_change host revision p after prior) files)
        ≡ (if str_eq p q then after else lookup q files)
  unfolding path_change apply_changes apply_change
  lookup-path_change p q none prior files h = lookup-erase p q files
  lookup-path_change p q (some b) none files h = lookup-insert p q b files
  lookup-path_change p q (some b) (some a) files h = elim (Bool-cases (bytes_eq a b)) [
    | inr differ ↦ rw differ (lookup-insert p q b files)
    | inl same ↦ rw same (let equal : a ≡ b = bytes_eq-eq a b same in ground (arith, eq_iff p q))
  ]

module _ (host : Host) (before files : Dict Bytes) (revision : ℕ) where
  -- a directory that is on its way from `before` to `files`
  abbrev Between : Dict Bytes → Type 0
  Between now = (p : String) → (lookup p now ≡ lookup p before) ⊎ (lookup p now ≡ lookup p files)

  abbrev one : String → List FileChange
  one p = path_change host revision p (lookup p files) (lookup p before)

  lookup-one :
      (p q : String) (now : Dict Bytes)
      → Between now
      → lookup q (apply_changes (one p) now) ≡ (if str_eq p q then lookup q files else lookup q now)
  lookup-one p q now h = elim (Bool-cases (str_eq p q)) [
    | inl same ↦
        let equal : p ≡ q = (eq_iff p q).0 same in
        let at_p =
          lookup-path_change host revision p q (lookup p files) (lookup p before) now (h p) in
        rw same (rw same at at_p ∙ ap (λ r. lookup r files) equal)
    | inr other ↦
        let at_p =
          lookup-path_change host revision p q (lookup p files) (lookup p before) now (h p) in
        rw other (rw other at at_p)
  ]

  Between-one : (p : String) (now : Dict Bytes) → Between now → Between (apply_changes (one p) now)
  Between-one p now h q = ground (arith, lookup-one p q now h, h q)

  lookup-path_changes :
      (paths : List String) (now : Dict Bytes)
      → Between now
      → (q : String)
      → lookup q (apply_changes (path_changes host before files revision paths) now)
        ≡ (if contains q paths then lookup q files else lookup q now)
  unfolding path_changes contains
  lookup-path_changes [] now h q = unfold apply_changes in refl
  lookup-path_changes (p ∷ paths) now h q = rw (apply_changes-append (one p)) (
      ground (
        arith,
        lookup-path_changes paths (apply_changes (one p) now) (Between-one p now h) q,
        lookup-one p q now h,
      ))

  -- Replaying the changes of a commit on the files before it gives, at every path, the bytes of the
  -- files that the commit stored.
  pub lookup-file_changes :
      (q : String)
      → lookup q (apply_changes (file_changes host before files revision) before) ≡ lookup q files
  unfolding file_changes
  lookup-file_changes q =
      let paths = keys before ++ keys files in
      let all = lookup-path_changes (unique paths) before (λ p. inl refl) q in
      elim (Bool-cases (contains q paths)) [
        | inl listed ↦ rw (contains-unique q paths, listed) at all
        | inr absent ↦
            let neither = rw (contains-append q (keys before) (keys files)) at absent in
            let unlisted = rw (contains-unique q paths, absent) at all in
            unlisted
            ∙ lookup-keys q before (ground arith)
            ∙ sym (lookup-keys q files (ground arith))
      ]

workspace-saved :
    (id : String) (w : Workspace) (t : StoredTurn) (db : Database)
    → workspace (some id) (save_turn t (save_workspace id w db)) ≡ ok w
unfolding workspace save_turn save_workspace
workspace-saved id w t db = rw (lookup-insert id id w db.workspaces, eq_refl id)

module _ (host : Host) (id : String) where
  pub commit_tool_in-IsLog :
      (es : List ExecutorEvent) (files : Dict Bytes) (metadata : Dict EntryMetadata)
      (db db' : Database)
      → IsLog db
      → commit_tool_in host id es files metadata db ≡ ok db'
      → IsLog db'
  unfolding commit_tool_in
  commit_tool_in-IsLog es files metadata db db' h e =
      let (t, active, e1) = >>=-eq-ok (active_turn id db) _ e in
      let (_, within, e2) = >>=-eq-ok (check_workspace_limits host files metadata) _ e1 in
      let (before, found, e3) = >>=-eq-ok (workspace (some id) db) _ e2 in
      let stored : Workspace = record { files = files; metadata = metadata } in
      let t' = set_revision t (revision_of t + 1) in
      rw (← ok-injective e3)
        (log-append host.now id _ (save_turn t' (save_workspace id stored db)) (
          save_turn-IsLog t' (save_workspace id stored db) (save_workspace-IsLog id stored db h))).0

  -- What a tool commit that returns has done: the turn was running, its files and metadata are
  -- stored, and its log has grown by the tool's events, one change for each path whose bytes differ,
  -- with the bytes after, none for any other path, and the next revision; replaying those changes on
  -- the files before gives the files stored.
  pub commit_tool_in-delta :
      (es : List ExecutorEvent) (files : Dict Bytes) (metadata : Dict EntryMetadata)
      (db db' : Database)
      → IsLog db
      → commit_tool_in host id es files metadata db ≡ ok db'
      → (t : StoredTurn) × (before : Workspace) × (active_turn id db ≡ ok t)
        × (workspace (some id) db ≡ ok before)
        × (workspace (some id) db' ≡ ok (record { files = files; metadata = metadata }))
        × (let revision = revision_of t + 1 in
            let changes = file_changes host before.files files revision in
            (log id db'
              ≡ log id db
                ++ (es ++ map file_changed changes ++ workspace_committed revision metadata ∷ []))
            × ((q : String) → lookup q (apply_changes changes before.files) ≡ lookup q files)
            × ((q : String) → IsMinimal before.files files revision changes q))
  unfolding commit_tool_in
  commit_tool_in-delta es files metadata db db' h e =
      let (t, active, e1) = >>=-eq-ok (active_turn id db) _ e in
      let (_, within, e2) = >>=-eq-ok (check_workspace_limits host files metadata) _ e1 in
      let (before, found, e3) = >>=-eq-ok (workspace (some id) db) _ e2 in
      let revision = revision_of t + 1 in
      let changes = file_changes host before.files files revision in
      let stored : Workspace = record { files = files; metadata = metadata } in
      let middle = save_turn (set_revision t revision) (save_workspace id stored db) in
      let more = es ++ map file_changed changes ++ workspace_committed revision metadata ∷ [] in
      let dense =
        save_turn-IsLog (set_revision t revision) (save_workspace id stored db)
          (save_workspace-IsLog id stored db h) in
      rw (← ok-injective e3) (
        t,
        before,
        active,
        found,
        workspace-append host.now id more middle (some id)
            ∙ workspace-saved id stored (set_revision t revision) db,
        (
          (log-append host.now id more middle dense).1
              ∙ ap (λ l. l ++ more) (log-save_turn _ _ id ∙ log-save_workspace id stored db id),
          lookup-file_changes host before.files files revision,
          file_changes-IsMinimal host before.files files revision,
        ),
      )
