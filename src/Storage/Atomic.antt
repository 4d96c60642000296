-- ===== src/Storage/Atomic.antt =====
-- A commit takes the next sequence numbers in order.
use nimplex.Prelude.{
  ℕ, zero, suc, ◌+◌, String, ◌≡◌, refl, true, some, List, [], ◌∷◌, map, length, ok, length-map,
  >>=-eq-ok, arith, or_throw, or_throw-eq-ok,
}
use nimplex.Storage.Records.{
  CommittedWrite, write_seq, Tables, SessionRow, PiStorageScope, session_missing,
}
use nimplex.Storage.Ports.{Platform, PiSession, PiSessionLaws, is_numbered}
use nimplex.Storage.Journal.{Receipt, commit_sync}
use nimplex.Storage.Commits.{apply_committed-Applied}

-- `n`, `n + 1`, … , `k` numbers
abbrev pub range_from : ℕ → ℕ → List ℕ
range_from n zero = []
range_from n (suc k) = n ∷ range_from (n + 1) k

is_numbered-seqs :
    (n : ℕ) (ws : List CommittedWrite)
    → is_numbered n ws ≡ true
    → map write_seq ws ≡ range_from n (length ws)
unfolding is_numbered
is_numbered-seqs n [] h = refl
is_numbered-seqs n (w ∷ ws) h =
    let first : write_seq w ≡ n = ground arith in
    let rest : is_numbered (n + 1) ws ≡ true = ground arith in cc (is_numbered-seqs (n + 1) ws rest)

-- A commit that returns takes the session row's next sequence number and those after it, one for
-- each write in order, reports them, and moves the row past them.
pub commit_sync-seqs :
    (js : Platform) (pi : PiSession) (scope : PiStorageScope) (laws : PiSessionLaws pi)
    (writes : List pi.Write) (now : ℕ) (commit_id : String) (before after : Tables js.Text)
    (receipt : Receipt) (row : SessionRow)
    → before.session ≡ some row
    → commit_sync js pi scope writes now commit_id before ≡ ok (receipt, after)
    → (receipt.first_seq ≡ row.next_seq)
      × (receipt.seqs ≡ range_from row.next_seq (length receipt.seqs))
      × (after.session
          ≡ some
              (record row { next_seq = row.next_seq + length receipt.seqs; stats = receipt.stats }))
unfolding commit_sync
commit_sync-seqs js pi scope laws writes now commit_id before after receipt row s h =
    let (row', found, h1) = >>=-eq-ok (or_throw before.session session_missing) _ h in
    let same = or_throw-eq-ok before.session session_missing found in
    let equal : row' ≡ row = cc in
    let ((prepared, timestamp), e, h2) =
      >>=-eq-ok (pi.prepare_storage_commit writes row'.next_seq now) _ h1 in
    let a =
      apply_committed-Applied js pi scope row' prepared timestamp commit_id before receipt after
        h2 in
    let numbered = laws.prepared-is_numbered writes row'.next_seq now prepared timestamp e in
    let count : length (map write_seq prepared) ≡ length prepared = length-map write_seq prepared in
    rw (← equal, a.seqs, count)
      (a.first_seq, is_numbered-seqs row'.next_seq prepared numbered, a.session)
