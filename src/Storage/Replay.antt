-- ===== src/Storage/Replay.antt =====
-- Rebuilding the projections of a store that only commits have written gives the same store.
use mathlib.Core.Path.{fun_ext, sym}
use nimplex.Prelude.{
  All-imp, All-append, ℕ, ◌+◌, ◌≤◌, ◌<◌, String, ◌≡◌, refl, true, some, List, [], ◌∷◌, ◌++◌, All,
  length, ok, ◌>>=◌, >>=_assoc, arith, ==_refl, eq_refl,
}
use nimplex.Prelude.Sorting.{order_by-ascending, IsAscending, IsAscending-append}
use nimplex.Storage.Records.{
  CommittedWrite, CommitRow, SessionRow, Tables, empty_stats, no_projections, PiStorageScope,
  PiStorageCommit,
}
use nimplex.Storage.Ports.{Platform, PlatformLaws, PiSession, is_numbered, writes_finite}
use nimplex.Storage.Projections.{Projected, apply_all}
use nimplex.Storage.Commits.{Applied, Applied-nil, journal_commit-cons}
use nimplex.Storage.Journal.{
  is_format, is_commit, validate, envelope, commit_row, Receipt, decode_commit, replay_record,
  replay, rebuild_projections,
}

module _ (js : Platform) (pi : PiSession) (scope : PiStorageScope) where
  replay-append :
      (xs ys : List (CommitRow js.Text)) (s : ℕ × Projected)
      → replay js pi scope (xs ++ ys) s ≡ (replay js pi scope xs s >>= replay js pi scope ys)
  unfolding replay
  replay-append [] ys s = refl
  replay-append (x ∷ xs) ys s = rw (fun_ext λ t. replay-append xs ys t) (
      sym
        (>>=_assoc (replay_record js pi scope x s) (replay js pi scope xs) (replay js pi scope ys)))

  -- The record that a commit journals is read back as its envelope.
  decode_commit-commit_row :
      (laws : PlatformLaws js) (c : PiStorageCommit)
      → writes_finite c.writes ≡ true
      → is_commit js c ≡ true
      → c.scope ≡ scope
      → decode_commit js pi scope (commit_row js pi scope c) ≡ ok c
  unfolding decode_commit commit_row
  decode_commit-commit_row laws c finite valid same =
      simp (eq_refl, laws.decode-encode c finite, valid, same)

  -- One journalled commit is replayed exactly as it was applied.
  replay_record-commit_row :
      (laws : PlatformLaws js) (c : PiStorageCommit) (s t : Projected)
      → writes_finite c.writes ≡ true
      → is_commit js c ≡ true
      → c.scope ≡ scope
      → is_numbered c.first_seq c.writes ≡ true
      → validate js pi scope c.writes c.first_seq s.1 ≡ ok tt
      → apply_all c.writes s ≡ ok t
      → replay_record js pi scope (commit_row js pi scope c) (c.first_seq, s)
        ≡ ok (c.first_seq + length c.writes, t)
  replay_record-commit_row laws c s t finite valid same numbered checked applied =
      unfold replay_record in
      rw (decode_commit-commit_row laws c finite valid same)
        (unfold commit_row in simp (==_refl, numbered, checked, applied))

-- The journal of a session is complete: replayed from nothing it gives the session's statistics,
-- projections and next sequence number.
module _ (js : Platform) (pi : PiSession) (scope : PiStorageScope) where
  pub record IsJournalled (row : SessionRow) (tables : Tables js.Text) : Type 0 where
    pub session : tables.session ≡ some row
    pub format : is_format row.format ≡ true
    pub ascending : IsAscending (λ (r : CommitRow js.Text). r.first_seq) tables.commits
    pub below : All (λ (r : CommitRow js.Text). r.first_seq < row.next_seq) tables.commits
    pub positive : 1 ≤ row.next_seq
    pub replayed :
        replay js pi scope tables.commits (1, (empty_stats, no_projections))
        ≡ ok (row.next_seq, (row.stats, tables.projections))

  pub rebuild_projections-IsJournalled :
      (row : SessionRow) (tables : Tables js.Text)
      → IsJournalled row tables
      → rebuild_projections js pi scope tables ≡ ok ((row.next_seq, row.stats), tables)
  unfolding rebuild_projections
  rebuild_projections-IsJournalled row tables j =
      simp
        (
          j.session,
          j.format,
          order_by-ascending (λ (r : CommitRow js.Text). r.first_seq) tables.commits j.ascending,
          j.replayed,
          ==_refl,
        )
        (cc j.session)

  -- A commit of numbered writes keeps the journal complete.
  pub apply_committed-IsJournalled :
      (laws : PlatformLaws js) (row : SessionRow) (writes : List CommittedWrite) (timestamp : ℕ)
      (commit_id : String) (before : Tables js.Text) (receipt : Receipt) (after : Tables js.Text)
      → IsJournalled row before
      → is_numbered row.next_seq writes ≡ true
      → Applied js pi scope row writes timestamp commit_id before receipt after
      → IsJournalled
          (record row { next_seq = row.next_seq + length writes; stats = receipt.stats })
          after
  unfolding envelope
  apply_committed-IsJournalled laws row [] timestamp commit_id before receipt after j numbered a =
      let (commits, stats, projections) = Applied-nil js pi scope a in
      let still : row.next_seq + 0 ≡ row.next_seq = omega arith in
      record {
        session = a.session;
        format = j.format;
        ascending = rw commits j.ascending;
        below = rw (commits, still) j.below;
        positive = rw still j.positive;
        replayed = rw (commits, stats, projections, still) j.replayed;
      }
  apply_committed-IsJournalled laws row (w ∷ ws) timestamp commit_id before receipt after j numbered
        a =
      let c = envelope js pi scope commit_id timestamp row.next_seq (w ∷ ws) in
      let (finite, valid, longer) =
        journal_commit-cons js pi scope commit_id timestamp row.next_seq w ws before.commits
          after.commits a.journalled in
      record {
        session = a.session;
        format = j.format;
        ascending = rw longer (
            unfold envelope commit_row in
            IsAscending-append (λ (r : CommitRow js.Text). r.first_seq) before.commits
              (commit_row js pi scope c) j.ascending
              (All-imp before.commits (λ r h. omega arith) j.below));
        below = rw longer (
            All-append _ before.commits (commit_row js pi scope c ∷ [])
              (All-imp before.commits (λ r h. omega arith) j.below)
              (unfold envelope commit_row in (omega arith, tt)));
        positive = omega (arith, j.positive);
        replayed =
            rw (longer, replay-append js pi scope, j.replayed)
              (unfold replay in
                rw (
                  replay_record-commit_row js pi scope laws c (row.stats, before.projections)
                    (receipt.stats, after.projections) finite valid refl numbered a.checked
                    a.applied));
      }
