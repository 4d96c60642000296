-- ===== src/Storage/Reach.antt =====
-- The states of a session's store that its operations can reach.

use nimplex.Prelude.{
  ℕ, ◌+◌, String, ◌≡◌, refl, true, some, List, [], ◌∷◌, ok, >>=-eq-ok, guard, or_throw,
  ok-injective, or_throw-eq-ok, ◌==◌, ap, ◌∙◌, sym, subst, arith, ==_refl,
}
use nimplex.Storage.Records.{
  CommittedWrite, entry_write, usage_write, keyed_write, SessionRow, SessionStats, Tables,
  no_tables, PiStorageScope, session_missing, invalid_scope, fork_not_empty, current_format,
  empty_stats,
}
use nimplex.Storage.Ports.{Platform, PlatformLaws, PiSession, PiSessionLaws, is_numbered}
use nimplex.Storage.Journal.{
  Receipt, open_storage, commit_sync, rebuild_projections, replay, is_scope,
}
use nimplex.Storage.Fork.{renumber, import_fork_sync, fork_writes}
use nimplex.Storage.Commits.{apply_committed-Applied}
use nimplex.Storage.Replay.{
  IsJournalled, apply_committed-IsJournalled, rebuild_projections-IsJournalled,
}

pub renumber-is_numbered :
    (n : ℕ) (writes : List CommittedWrite) → is_numbered n (renumber n writes) ≡ true
unfolding is_numbered renumber
renumber-is_numbered n [] = refl
renumber-is_numbered n (entry_write e ∷ ws) = rw (==_refl n) (renumber-is_numbered (n + 1) ws)
renumber-is_numbered n (usage_write u ∷ ws) = rw (==_refl n) (renumber-is_numbered (n + 1) ws)
renumber-is_numbered n (keyed_write k ∷ ws) = rw (==_refl n) (renumber-is_numbered (n + 1) ws)

module _ (js : Platform) (pi : PiSession) (scope : PiStorageScope) where
  pub data Reach : Tables js.Text → Type 0 where
    opened : {t : Tables js.Text} → open_storage js pi scope no_tables ≡ ok t → Reach t
    reopened : {t u : Tables js.Text} → Reach t → open_storage js pi scope t ≡ ok u → Reach u
    committed :
        {t u : Tables js.Text} {receipt : Receipt} (writes : List pi.Write) (now : ℕ)
        (commit_id : String)
        → Reach t
        → commit_sync js pi scope writes now commit_id t ≡ ok (receipt, u)
        → Reach u
    forked :
        {t u : Tables js.Text} {receipt : Receipt} (source : Tables js.Text)
        (options : pi.ForkOptions) (now : ℕ) (commit_id : String)
        → Reach t
        → import_fork_sync js pi scope source options now commit_id t ≡ ok (receipt, u)
        → Reach u
    rebuilt :
        {t u : Tables js.Text} {result : ℕ × SessionStats}
        → Reach t
        → rebuild_projections js pi scope t ≡ ok (result, u)
        → Reach u

module _ (js : Platform) (pi : PiSession) (scope : PiStorageScope) (js_laws : PlatformLaws js)
    (pi_laws : PiSessionLaws pi) where
  abbrev Journalled : Tables js.Text → Type 0
  Journalled t = (row : SessionRow) × IsJournalled js pi scope row t

  fresh-IsJournalled :
      IsJournalled js pi scope
        (record { format = current_format; next_seq = 1; stats = empty_stats })
        (record no_tables {
          session = some (record { format = current_format; next_seq = 1; stats = empty_stats });
        })
  unfolding replay
  fresh-IsJournalled = record {
    session = refl;
    format = refl;
    ascending = tt;
    below = tt;
    positive = omega arith;
    replayed = refl;
  }

  opened-Journalled :
      {t : Tables js.Text} → open_storage js pi scope no_tables ≡ ok t → Journalled t
  unfolding open_storage
  opened-Journalled h =
      let (_, _, fresh) = >>=-eq-ok (guard (is_scope js scope) invalid_scope) _ h in
      subst Journalled (ok-injective fresh) (_, fresh-IsJournalled)

  -- Opening a store that has its session row changes nothing.
  pub open_storage-old :
      {t u : Tables js.Text} (row : SessionRow)
      → t.session ≡ some row
      → open_storage js pi scope t ≡ ok u
      → u ≡ t
  unfolding open_storage
  open_storage-old {t} {u} row h e = ground arith

  reopened-Journalled :
      {t u : Tables js.Text} → Journalled t → open_storage js pi scope t ≡ ok u → Journalled u
  reopened-Journalled (row, j) h =
      subst Journalled (sym (open_storage-old row j.session h)) (row, j)

  row-Journalled :
      (t : Tables js.Text) (row : SessionRow)
      → Journalled t
      → or_throw t.session session_missing ≡ ok row
      → IsJournalled js pi scope row t
  row-Journalled t row (row', j) h =
      let found = or_throw-eq-ok t.session session_missing h in
      let session = j.session in
      let same : row' ≡ row = cc in subst (λ r. IsJournalled js pi scope r t) same j

  committed-Journalled :
      {t u : Tables js.Text} {receipt : Receipt} (writes : List pi.Write) (now : ℕ)
      (commit_id : String)
      → Journalled t
      → commit_sync js pi scope writes now commit_id t ≡ ok (receipt, u)
      → Journalled u
  unfolding commit_sync
  committed-Journalled {t} {u} {receipt} writes now commit_id j h =
      let (row, found, h1) = >>=-eq-ok (or_throw t.session session_missing) _ h in
      let ((prepared, timestamp), e, h2) =
        >>=-eq-ok (pi.prepare_storage_commit writes row.next_seq now) _ h1 in
      (
        _,
        apply_committed-IsJournalled js pi scope js_laws row prepared timestamp commit_id t receipt
            u (row-Journalled t row j found)
            (pi_laws.prepared-is_numbered writes row.next_seq now prepared timestamp e)
            (apply_committed-Applied js pi scope row prepared timestamp commit_id t receipt u h2),
      )

  forked-Journalled :
      {t u : Tables js.Text} {receipt : Receipt} (source : Tables js.Text)
      (options : pi.ForkOptions) (now : ℕ) (commit_id : String)
      → Journalled t
      → import_fork_sync js pi scope source options now commit_id t ≡ ok (receipt, u)
      → Journalled u
  unfolding import_fork_sync
  forked-Journalled {t} {u} {receipt} source options now commit_id j h =
      let (row, found, h1) = >>=-eq-ok (or_throw t.session session_missing) _ h in
      let (_, _, h2) = >>=-eq-ok (guard (row.next_seq == 1) fork_not_empty) _ h1 in
      let (snapshot, _, h3) = >>=-eq-ok (pi.create_fork_snapshot _ _ options) _ h2 in
      let writes = renumber row.next_seq (fork_writes snapshot) in
      (
        _,
        apply_committed-IsJournalled js pi scope js_laws row writes now commit_id t receipt u
            (row-Journalled t row j found)
            (renumber-is_numbered row.next_seq (fork_writes snapshot))
            (apply_committed-Applied js pi scope row writes now commit_id t receipt u h3),
      )

  rebuilt-Journalled :
      {t u : Tables js.Text} {result : ℕ × SessionStats}
      → Journalled t
      → rebuild_projections js pi scope t ≡ ok (result, u)
      → Journalled u
  rebuilt-Journalled {t} {u} {result} (row, j) h =
      let same = sym (rebuild_projections-IsJournalled js pi scope row t j) ∙ h in
      subst Journalled (ap (λ r. r.1) (ok-injective same)) (row, j)

  -- In every reachable state the journal is complete.
  pub Reach-Journalled : {t : Tables js.Text} → Reach js pi scope t → Journalled t
  Reach-Journalled (opened h) = opened-Journalled h
  Reach-Journalled (reopened r h) = reopened-Journalled (Reach-Journalled r) h
  Reach-Journalled (committed writes now commit_id r h) =
      committed-Journalled writes now commit_id (Reach-Journalled r) h
  Reach-Journalled (forked source options now commit_id r h) =
      forked-Journalled source options now commit_id (Reach-Journalled r) h
  Reach-Journalled (rebuilt r h) = rebuilt-Journalled (Reach-Journalled r) h

  -- In every state that opening, commits, forks and rebuilds reach, the session row is present, and
  -- rebuilding from the journal succeeds, reports the row's next sequence number and statistics,
  -- and leaves every table as it was.
  pub rebuild_projections-Reach :
      {t : Tables js.Text}
      → Reach js pi scope t
      → (row : SessionRow) × (t.session ≡ some row)
        × (rebuild_projections js pi scope t ≡ ok ((row.next_seq, row.stats), t))
  rebuild_projections-Reach {t} r =
      let (row, j) = Reach-Journalled r in
      (row, j.session, rebuild_projections-IsJournalled js pi scope row t j)
