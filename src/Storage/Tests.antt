-- ===== src/Storage/Tests.antt =====
-- A concrete host for the storage, a short session on it, and the theorems at that session.
use nimplex.Prelude.{◌+◌, ◌≡◌, refl, true, none, some, List, [], ◌∷◌, Result, ok, err, length}
use nimplex.Storage.Records.{
  text, empty_stats, value, put, CommittedWrite, entry_write, keyed_write, PiStorageScope,
  PiStorageCommit, SessionRow, Tables, no_tables, no_projections, StorageError,
}
use nimplex.Storage.Ports.{writes_finite, Platform, PlatformLaws, PiSession, PiSessionLaws}
use nimplex.Storage.Projections.{Projected, apply_all}
use nimplex.Storage.Journal.{
  apply_committed, validate, journal_commit, is_commit, envelope, commit_row, insert_commit,
  Receipt, open_storage, commit_sync, rebuild_projections,
}
use nimplex.Storage.Fork.{renumber}
use nimplex.Storage.Reach.{
  Reach, opened, committed, renumber-is_numbered, rebuild_projections-Reach,
}
use nimplex.Storage.Queries.{get_value}
use nimplex.Storage.Values.{latest_value, get_value-apply_all}
use nimplex.Storage.Totals.{count_messages, sum_usage}
use nimplex.Storage.Bounds.{IsBelow}
use nimplex.Storage.Invariants.{projections-Reach}
use nimplex.Storage.Atomic.{range_from, commit_sync-seqs}

abbrev host : Platform
host = record {
  Text = PiStorageCommit;
  encode = λ c. c;
  decode = λ c. some c;
  sha256 = λ c. c.commit_id;
  is_uuid = λ s. true;
  utf16_length = λ s. 5;
}

host_laws : PlatformLaws host
host_laws = record { decode-encode = λ c h. refl }

abbrev session : PiSession
session = record {
  Write = CommittedWrite;
  ForkOptions = Unit {0};
  prepare_storage_commit = λ writes next_seq now. ok (renumber next_seq writes, now);
  validate_committed_writes = λ writes first_seq has_entry has_any. ok tt;
  create_fork_snapshot =
      λ entries values options. ok (record { entries = entries; scalar_values = values });
}

session_laws : PiSessionLaws session
session_laws = record {
  prepared-is_numbered = λ writes next_seq now prepared timestamp e.
      let same : renumber next_seq writes ≡ prepared = cc in
      rw (← same) (renumber-is_numbered next_seq writes);
}

abbrev scope : PiStorageScope
scope = record { tenant_id = "local"; session_id = "s1" }

abbrev hello : CommittedWrite
hello = entry_write (record {
  id = "e1";
  parent_id = none;
  seq = 0;
  timestamp = 7;
  type = "message";
  custom_type = none;
  body = text "hello";
})

abbrev name_it : CommittedWrite
name_it = keyed_write (record {
  kind = value;
  namespace = "pi.session.name";
  key = "main";
  seq = 0;
  op = put (some (text "first"));
})

abbrev outcome : {A : Type 0} → A → Result StorageError A → A
outcome d (ok a) = a
outcome d (err e) = d

abbrev start : Tables PiStorageCommit
start = record no_tables {
  session = some (record {
    format = record { version = 1; engine = "pi-agent-harness"; pi_version = "0.85.1" };
    next_seq = 1;
    stats = empty_stats;
  });
}

abbrev no_receipt : Receipt
no_receipt = record { first_seq = 0; seqs = []; timestamp = 0; stats = empty_stats }

abbrev done : Receipt × Tables PiStorageCommit
unfolding commit_sync apply_committed validate journal_commit is_commit envelope commit_row
    insert_commit apply_all renumber writes_finite
done =
    outcome (no_receipt, start) (commit_sync host session scope (hello ∷ name_it ∷ []) 9 "c1" start)

done-Reach : Reach host session scope done.1
unfolding done open_storage
done-Reach =
    committed {receipt = done.0} (hello ∷ name_it ∷ []) 9 "c1" (opened {t = start} refl) refl

-- Opening, and one commit of a message and a session name.
done_next_seq :
    done.1.session
    ≡ some (record {
      format = record { version = 1; engine = "pi-agent-harness"; pi_version = "0.85.1" };
      next_seq = 3;
      stats = record empty_stats { message_count = 1 };
    })
unfolding done
done_next_seq = refl

rebuild_projections-Reach_example :
    (row : SessionRow) × (done.1.session ≡ some row)
    × (rebuild_projections host session scope done.1 ≡ ok ((row.next_seq, row.stats), done.1))
rebuild_projections-Reach_example =
    rebuild_projections-Reach host session scope host_laws session_laws done-Reach

abbrev done_row : SessionRow
done_row = record {
  format = record { version = 1; engine = "pi-agent-harness"; pi_version = "0.85.1" };
  next_seq = 3;
  stats = record empty_stats { message_count = 1 };
}

projections-Reach_example :
    (1 ≡ count_messages done.1.projections.entries)
    × (empty_stats.usage ≡ sum_usage empty_stats.usage done.1.projections.usage)
    × IsBelow 3 done.1.projections
unfolding done
projections-Reach_example =
    projections-Reach host session scope host_laws session_laws {row = done_row} done-Reach refl

abbrev numbered_writes : List CommittedWrite
unfolding renumber
numbered_writes = renumber 1 (hello ∷ name_it ∷ [])

abbrev projected : Projected
projected = (empty_stats, no_projections)

abbrev projected_after : Projected
unfolding apply_all numbered_writes
projected_after = outcome projected (apply_all numbered_writes projected)

get_value-apply_all_example :
    get_value "pi.session.name" "main" projected_after.1.values
    ≡ latest_value "pi.session.name" "main" numbered_writes
        (get_value "pi.session.name" "main" projected.1.values)
unfolding projected_after
get_value-apply_all_example =
    get_value-apply_all "pi.session.name" "main" numbered_writes projected projected_after refl

commit_sync-seqs_example :
    (done.0.first_seq ≡ 1)
    × (done.0.seqs ≡ range_from 1 (length done.0.seqs))
    × (done.1.session
        ≡ some (record done_row { next_seq = 1 + length done.0.seqs; stats = done.0.stats }))
unfolding done
commit_sync-seqs_example =
    commit_sync-seqs host session scope session_laws (hello ∷ name_it ∷ []) 9 "c1" start done.1
      done.0 (record { format = done_row.format; next_seq = 1; stats = empty_stats }) refl refl
