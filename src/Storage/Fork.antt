-- ===== src/Storage/Fork.antt =====
-- `importForkSync`: copying a path of another session into an empty one.
use nimplex.Prelude.{
  ℕ, ◌+◌, String, some, List, [], ◌∷◌, ◌++◌, map, ◌==◌, Result, ◌>>=◌, ◌>>◌, guard, or_throw,
}
use nimplex.Prelude.Sorting.{order_by}
use nimplex.Storage.Records.{
  Entry, value, put, CommittedWrite, entry_write, usage_write, keyed_write, write_seq, KeyedRow,
  PiStorageScope, Tables, StorageError, session_missing, fork_not_empty,
}
use nimplex.Storage.Ports.{Platform, PiSession, ForkSnapshot}
use nimplex.Storage.Journal.{Receipt, apply_committed}

abbrev set_value : KeyedRow → CommittedWrite
set_value r = keyed_write (record {
  kind = value;
  namespace = r.namespace;
  key = r.key;
  seq = r.seq;
  op = put (some r.value);
})

-- the snapshot's entries and values as writes, in their old order
unfoldable pub fork_writes : ForkSnapshot → List CommittedWrite
fork_writes s = order_by write_seq (map entry_write s.entries ++ map set_value s.scalar_values)

-- `{ ...write, seq }`
unfoldable pub with_seq : ℕ → CommittedWrite → CommittedWrite
with_seq n (entry_write e) = entry_write (record e { seq = n })
with_seq n (usage_write u) = usage_write (record u { seq = n })
with_seq n (keyed_write k) = keyed_write (record k { seq = n })

-- sequence numbers from `n` on, without a gap
unfoldable pub renumber : ℕ → List CommittedWrite → List CommittedWrite
unfolding with_seq
renumber n [] = []
renumber n (w ∷ ws) = with_seq n w ∷ renumber (n + 1) ws

-- `source` holds the other session's rows, `tables` those of the empty destination.
unfoldable pub import_fork_sync :
    (js : Platform) (pi : PiSession) (scope : PiStorageScope)
    → Tables js.Text
    → pi.ForkOptions
    → ℕ
    → String
    → Tables js.Text
    → Result StorageError (Receipt × Tables js.Text)
import_fork_sync js pi scope source options now commit_id tables = do
  row ← or_throw tables.session session_missing
  guard (row.next_seq == 1) fork_not_empty
  snapshot ←
      pi.create_fork_snapshot (order_by (λ (e : Entry). e.seq) source.projections.entries)
        (order_by (λ (v : KeyedRow). v.seq) source.projections.values) options
  apply_committed js pi scope row (renumber row.next_seq (fork_writes snapshot)) now commit_id
      tables
