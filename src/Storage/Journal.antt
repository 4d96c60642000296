-- ===== src/Storage/Journal.antt =====
-- `SqlitePiStorage`: the journal, its commits, forks and the rebuild of the projections.
use nimplex.Prelude.{
  ℕ, ◌+◌, ◌-◌, String, Bool, true, false, not, ◌&&◌, ◌||◌, none, some, List, [], ◌∷◌, ◌++◌, any,
  map, length, if◌then◌else◌, leb, ◌==◌, str_eq, Result, ok, err, ◌>>=◌, ◌>>◌, guard, or_throw,
}
use nimplex.Prelude.Sorting.{order_by}
use nimplex.Storage.Records.{
  SessionStats, empty_stats, CommittedWrite, write_seq, Projections, no_projections, PiStorageScope,
  PiStorageFormat, current_format, PiStorageCommit, CommitRow, SessionRow, Tables, StorageError,
  session_missing, ownership_lost, constraint_failed, not_finite, invalid_scope, invalid_format,
  invalid_commit, digest_mismatch, scope_mismatch, sequence_gap, write_gap, high_water_mismatch,
}
use nimplex.Storage.Ports.{Platform, PiSession, is_numbered, writes_finite}
use nimplex.Storage.Projections.{Projected, apply_all}

abbrev pub is_empty : List CommittedWrite → Bool
is_empty [] = true
is_empty (w ∷ ws) = false

-- `piStorageFormat`: three literals
abbrev pub is_format : PiStorageFormat → Bool
is_format f = f.version == 1 && str_eq f.engine "pi-agent-harness" && str_eq f.pi_version "0.85.1"

unfoldable pub has_entry_id : Projections → String → Bool
has_entry_id p id = any (λ e. str_eq e.id id) p.entries

unfoldable pub has_entry_or_usage_id : Projections → String → Bool
unfolding has_entry_id
has_entry_or_usage_id p id = has_entry_id p id || any (λ u. str_eq u.id id) p.usage

pub record Receipt : Type 0 where
  pub first_seq : ℕ
  pub seqs : List ℕ
  pub timestamp : ℕ
  pub stats : SessionStats

-- PRIMARY KEY(tenant_id, session_id, commit_id), UNIQUE(tenant_id, session_id, first_seq)
abbrev pub commit_clash : {Text : Type 0} → CommitRow Text → CommitRow Text → Bool
commit_clash c row = str_eq row.commit_id c.commit_id || row.first_seq == c.first_seq

unfoldable pub insert_commit :
    {Text : Type 0}
    → CommitRow Text
    → List (CommitRow Text)
    → Result StorageError (List (CommitRow Text))
insert_commit c rows =
    if any (commit_clash c) rows then err constraint_failed else ok (rows ++ c ∷ [])

-- BEGIN IMMEDIATE, the ownership check, the operation, the check again, COMMIT; ROLLBACK on a throw
abbrev pub settle {ℓ} : {S A : Type ℓ} → S → Result StorageError (A × S) → Result StorageError A × S
settle before (ok (a, after)) = (ok a, after)
settle before (err e) = (err e, before)

unfoldable pub own_transaction {ℓ} :
    {S A : Type ℓ} → (S → Result StorageError (A × S)) → Bool → Bool → S → Result StorageError A × S
own_transaction operation owned_before owned_after before = settle before do
  guard owned_before ownership_lost
  done ← operation before
  guard owned_after ownership_lost
  ok done

module _ (js : Platform) where
  -- `piStorageScope`
  unfoldable pub is_scope : PiStorageScope → Bool
  is_scope scope =
      let tenant = js.utf16_length scope.tenant_id in
      let session = js.utf16_length scope.session_id in
      leb 1 tenant && leb tenant 128 && leb 1 session && leb session 128

  -- `piStorageCommit.parse`
  unfoldable pub is_commit : PiStorageCommit → Bool
  unfolding is_scope
  is_commit c =
      (c.version == 1)
      && is_format c.format
      && is_scope c.scope
      && js.is_uuid c.commit_id
      && leb 1 c.first_seq
      && not (is_empty c.writes)

module _ (js : Platform) (pi : PiSession) (scope : PiStorageScope) where
  -- the constructor's transaction
  unfoldable pub open_storage : Tables js.Text → Result StorageError (Tables js.Text)
  open_storage tables = do
    guard (is_scope js scope) invalid_scope
    elim tables.session [
      | none ↦ ok (record tables {
        session = some (record { format = current_format; next_seq = 1; stats = empty_stats });
      })
      | some row ↦ if is_format row.format then ok tables else err invalid_format
    ]

  unfoldable pub validate : List CommittedWrite → ℕ → Projections → Result StorageError (Unit {0})
  unfolding has_entry_or_usage_id
  validate writes first_seq p =
      pi.validate_committed_writes writes first_seq (has_entry_id p) (has_entry_or_usage_id p)

  unfoldable pub envelope : String → ℕ → ℕ → List CommittedWrite → PiStorageCommit
  envelope commit_id timestamp first_seq writes = record {
    version = 1;
    format = current_format;
    scope = scope;
    commit_id = commit_id;
    committed_at = timestamp;
    first_seq = first_seq;
    writes = writes;
  }

  unfoldable pub commit_row : PiStorageCommit → CommitRow js.Text
  commit_row c = record {
    commit_id = c.commit_id;
    first_seq = c.first_seq;
    last_seq = c.first_seq + length c.writes - 1;
    digest = js.sha256 (js.encode c);
    data_text = js.encode c;
  }

  -- the journal's part of `applyCommitted`: nothing for an empty batch
  unfoldable pub journal_commit :
      String
      → ℕ
      → ℕ
      → List CommittedWrite
      → List (CommitRow js.Text)
      → Result StorageError (List (CommitRow js.Text))
  journal_commit commit_id timestamp next_seq [] rows = ok rows
  journal_commit commit_id timestamp next_seq (w ∷ ws) rows = do
    guard (writes_finite (w ∷ ws)) not_finite
    guard (is_commit js (envelope commit_id timestamp next_seq (w ∷ ws))) invalid_commit
    insert_commit (commit_row (envelope commit_id timestamp next_seq (w ∷ ws))) rows

  unfoldable pub apply_committed :
      SessionRow
      → List CommittedWrite
      → ℕ
      → String
      → Tables js.Text
      → Result StorageError (Receipt × Tables js.Text)
  apply_committed row writes timestamp commit_id tables = do
    validate writes row.next_seq tables.projections
    commits ← journal_commit commit_id timestamp row.next_seq writes tables.commits
    (stats, projections) ← apply_all writes (row.stats, tables.projections)
    ok (
      record {
        first_seq = row.next_seq;
        seqs = map write_seq writes;
        timestamp = timestamp;
        stats = stats;
      },
      record {
        session = some (record row { next_seq = row.next_seq + length writes; stats = stats });
        commits = commits;
        projections = projections;
      },
    )

  -- `now` is the clock's reading and `commit_id` the random identity
  unfoldable pub commit_sync :
      List pi.Write → ℕ → String → Tables js.Text → Result StorageError (Receipt × Tables js.Text)
  commit_sync writes now commit_id tables = do
    row ← or_throw tables.session session_missing
    (prepared, timestamp) ← pi.prepare_storage_commit writes row.next_seq now
    apply_committed row prepared timestamp commit_id tables

  unfoldable pub decode_commit : CommitRow js.Text → Result StorageError PiStorageCommit
  decode_commit row = do
    guard (str_eq (js.sha256 row.data_text) row.digest) digest_mismatch
    commit ← or_throw (js.decode row.data_text) invalid_commit
    guard (is_commit js commit) invalid_commit
    guard
        (str_eq commit.scope.tenant_id scope.tenant_id
          && str_eq commit.scope.session_id scope.session_id)
        scope_mismatch
    ok commit

  -- one round of the rebuild, on the next sequence number and what has been projected so far
  unfoldable pub replay_record :
      CommitRow js.Text → ℕ × Projected → Result StorageError (ℕ × Projected)
  replay_record record_row (next_seq, projected) = do
    commit ← decode_commit record_row
    guard
        (commit.first_seq == next_seq
          && record_row.first_seq == next_seq
          && record_row.last_seq == next_seq + length commit.writes - 1)
        sequence_gap
    guard (is_numbered next_seq commit.writes) write_gap
    validate commit.writes next_seq projected.1
    projected' ← apply_all commit.writes projected
    ok (next_seq + length commit.writes, projected')

  unfoldable pub replay :
      List (CommitRow js.Text) → ℕ × Projected → Result StorageError (ℕ × Projected)
  unfolding replay_record
  replay [] s = ok s
  replay (r ∷ rows) s = do s' ← replay_record r s; replay rows s'

  unfoldable pub rebuild_projections :
      Tables js.Text → Result StorageError ((ℕ × SessionStats) × Tables js.Text)
  rebuild_projections tables = do
    row ← or_throw tables.session session_missing
    guard (is_format row.format) invalid_format
    (next_seq, (stats, projections)) ←
        replay (order_by (λ (r : CommitRow js.Text). r.first_seq) tables.commits)
          (1, (empty_stats, no_projections))
    guard (next_seq == row.next_seq) high_water_mismatch
    ok (
      (next_seq, stats),
      record tables { session = some (record row { stats = stats }); projections = projections },
    )
