-- ===== src/Storage/Commits.antt =====
-- What a batch that was applied has done, part by part.
use nimplex.Prelude.{
  ℕ, ◌+◌, String, ◌≡◌, true, some, List, [], ◌∷◌, ◌++◌, map, length, ok, >>=-eq-ok, guard,
  guard-eq-ok, arith,
}
use nimplex.Storage.Records.{
  CommittedWrite, CommitRow, write_seq, SessionRow, Tables, not_finite, invalid_commit,
  PiStorageScope,
}
use nimplex.Storage.Ports.{Platform, PiSession, writes_finite}
use nimplex.Storage.Projections.{apply_all}
use nimplex.Storage.Journal.{
  Receipt, validate, envelope, commit_row, insert_commit, is_commit, journal_commit,
  apply_committed,
}

insert_commit-eq-ok :
    {Text : Type 0} (c : CommitRow Text) (before after : List (CommitRow Text))
    → insert_commit c before ≡ ok after
    → after ≡ before ++ c ∷ []
unfolding insert_commit
insert_commit-eq-ok c before after h = ground arith

module _ (js : Platform) (pi : PiSession) (scope : PiStorageScope) where
  pub record Applied (row : SessionRow) (writes : List CommittedWrite) (timestamp : ℕ)
      (commit_id : String) (before : Tables js.Text) (receipt : Receipt) (after : Tables js.Text)
      : Type 0 where
    pub checked : validate js pi scope writes row.next_seq before.projections ≡ ok tt
    pub journalled :
        journal_commit js pi scope commit_id timestamp row.next_seq writes before.commits
        ≡ ok after.commits
    pub applied :
        apply_all writes (row.stats, before.projections) ≡ ok (receipt.stats, after.projections)
    pub session :
        after.session
        ≡ some (record row { next_seq = row.next_seq + length writes; stats = receipt.stats })
    pub first_seq : receipt.first_seq ≡ row.next_seq
    pub seqs : receipt.seqs ≡ map write_seq writes

  pub apply_committed-Applied :
      (row : SessionRow) (writes : List CommittedWrite) (timestamp : ℕ) (commit_id : String)
      (before : Tables js.Text) (receipt : Receipt) (after : Tables js.Text)
      → apply_committed js pi scope row writes timestamp commit_id before ≡ ok (receipt, after)
      → Applied row writes timestamp commit_id before receipt after
  unfolding apply_committed
  apply_committed-Applied row writes timestamp commit_id before receipt after h =
      let (u, checked, h1) =
        >>=-eq-ok (validate js pi scope writes row.next_seq before.projections) _ h in
      let (commits, journalled, h2) =
        >>=-eq-ok
          (journal_commit js pi scope commit_id timestamp row.next_seq writes before.commits) _
          h1 in
      let ((stats, projections), applied, h3) =
        >>=-eq-ok (apply_all writes (row.stats, before.projections)) _ h2 in
      record {
        checked = checked;
        journalled = cc;
        applied = cc;
        session = cc;
        first_seq = cc;
        seqs = cc;
      }

  -- A batch that is not empty is journalled as one record, finite and valid.
  pub journal_commit-cons :
      (commit_id : String) (timestamp next_seq : ℕ) (w : CommittedWrite) (ws : List CommittedWrite)
      (before after : List (CommitRow js.Text))
      → journal_commit js pi scope commit_id timestamp next_seq (w ∷ ws) before ≡ ok after
      → let c = envelope js pi scope commit_id timestamp next_seq (w ∷ ws) in
        (writes_finite (w ∷ ws) ≡ true)
        × (is_commit js c ≡ true)
        × (after ≡ before ++ commit_row js pi scope c ∷ [])
  unfolding journal_commit
  journal_commit-cons commit_id timestamp next_seq w ws before after h =
      let c = envelope js pi scope commit_id timestamp next_seq (w ∷ ws) in
      let (a, finite, h1) = >>=-eq-ok (guard (writes_finite (w ∷ ws)) not_finite) _ h in
      let (b, valid, h2) = >>=-eq-ok (guard (is_commit js c) invalid_commit) _ h1 in
      (
        guard-eq-ok _ not_finite finite,
        guard-eq-ok _ invalid_commit valid,
        insert_commit-eq-ok (commit_row js pi scope c) before after h2,
      )

  -- An empty batch changes nothing.
  pub Applied-nil :
      {row : SessionRow} {timestamp : ℕ} {commit_id : String} {before : Tables js.Text}
      {receipt : Receipt} {after : Tables js.Text}
      → Applied row [] timestamp commit_id before receipt after
      → (after.commits ≡ before.commits)
        × (receipt.stats ≡ row.stats)
        × (after.projections ≡ before.projections)
  unfolding journal_commit apply_all
  Applied-nil a = let journalled = a.journalled in let applied = a.applied in (cc, cc, cc)
