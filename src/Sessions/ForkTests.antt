-- ===== src/Sessions/ForkTests.antt =====
-- A branch of a session on the Pi harness, and the search for the owner of a turn from it.
use nimplex.Prelude.{
  String, ◌≡◌, refl, sym, ap, inl, inr, true, Bool-cases, str_eq, none, some, [], ◌∷◌, Result, ok,
  err, arith,
}
use nimplex.Prelude.Dict.{lookup, insert}
use nimplex.Prelude.Sorting.{order_by}
use nimplex.Status.{completed, is_terminal}
use nimplex.Storage.Records.{
  text, object, member, end, value, put, CommittedWrite, keyed_write, PiStorageScope,
  PiStorageCommit, Tables, no_tables, empty_stats,
}
use nimplex.Storage.Ports.{writes_finite, Platform, PiSession}
use nimplex.Storage.Projections.{apply_all}
use nimplex.Storage.Journal.{
  apply_committed, validate, journal_commit, is_commit, envelope, commit_row, insert_commit,
  Receipt, open_storage, commit_sync,
}
use nimplex.Storage.Fork.{renumber, import_fork_sync, fork_writes, with_seq}
use nimplex.Storage.Queries.{get_value}
use nimplex.Store.Members.{get_member}
use nimplex.Store.Records.{SessionEngine, StoredSession, RuntimeError}
use nimplex.Store.Tables.{session, turn, save_session}
use nimplex.Store.Samples.{turn_in, session_row, new_store}
use nimplex.Sessions.Branching.{
  index_of, branch_turns, forked, fork_pi_session, Stores, find_owner, fork_session,
}
use nimplex.Sessions.Forking.{Branched}
use nimplex.Sessions.Forked.{fork_and_show, fork_and_show_lem}
use nimplex.Prelude.{◌⊎◌}
use nimplex.Sessions.Owner.{Descends, Found, find_owner_lem}
use nimplex.Sessions.Descent.{IsFresh, ranked_above, fork_session-Descends}
use nimplex.Prelude.{[], List, ◌++◌}
use nimplex.Store.Tables.{turn, events}
use nimplex.Sessions.Snapshots.{
  SessionTurn, SessionSnapshot, get_session, session_turns, public_events,
}
use nimplex.Sessions.Inheritance.{fork_session-get_session}

abbrev js : Platform
js = record {
  Text = PiStorageCommit;
  encode = λ c. c;
  decode = λ c. some c;
  sha256 = λ c. c.commit_id;
  is_uuid = λ s. true;
  utf16_length = λ s. 5;
}

-- a snapshot keeps the entries and no value
abbrev pi : PiSession
pi = record {
  Write = CommittedWrite;
  ForkOptions = String;
  prepare_storage_commit = λ writes next_seq now. ok (renumber next_seq writes, now);
  validate_committed_writes = λ writes first_seq has_entry has_any. ok tt;
  create_fork_snapshot =
      λ entries values options. ok (record { entries = entries; scalar_values = [] });
}

abbrev settled_result : CommittedWrite
settled_result = keyed_write (record {
  kind = value;
  namespace = "pi.result";
  key = "t1";
  seq = 0;
  op = put (some (object (member "tipId" (text "e1") end)));
})

abbrev scope : PiStorageScope
scope = record { tenant_id = "local"; session_id = "s1" }

abbrev start : Tables PiStorageCommit
start = record no_tables {
  session = some (record {
    format = record { version = 1; engine = "pi-agent-harness"; pi_version = "0.85.1" };
    next_seq = 1;
    stats = empty_stats;
  });
}

abbrev outcome : {A E : Type 0} → A → Result E A → A
outcome d (ok a) = a
outcome d (err e) = d

abbrev no_receipt : Receipt
no_receipt = record { first_seq = 0; seqs = []; timestamp = 0; stats = empty_stats }

abbrev settled : Tables PiStorageCommit
unfolding commit_sync apply_committed validate journal_commit is_commit envelope commit_row
    insert_commit apply_all renumber writes_finite with_seq
settled =
    (outcome (no_receipt, start) (commit_sync js pi scope (settled_result ∷ []) 9 "c1" start)).1

abbrev source : StoredSession
source = record session_row { engine = some SessionEngine.pi_harness }

abbrev before : Stores js pi
before = record {
  db = record new_store { sessions = ("s1", source) ∷ []; turns = ("t1", turn_in completed) ∷ [] };
  scopes = ("s1", settled) ∷ [];
}

abbrev after : Stores js pi
unfolding fork_session forked fork_pi_session open_storage import_fork_sync fork_writes with_seq
    renumber order_by branch_turns index_of is_terminal session turn save_session insert lookup
    find_owner get_value get_member settled apply_committed validate journal_commit is_commit
    envelope commit_row insert_commit apply_all writes_finite
after = (fork_session js pi (λ tip. tip) 1 "s1" (some "t1") "s2" "2026-01-03" 12 "c2" before).1

after-ok :
    fork_session js pi (λ tip. tip) 1 "s1" (some "t1") "s2" "2026-01-03" 12 "c2" before
    ≡ (ok "s2", after)
unfolding after
after-ok = refl

abbrev no_snapshot : SessionSnapshot
no_snapshot = record {
  id = "";
  cwd = "";
  title = "";
  updated_at = "";
  parent_session_id = none;
  engine = none;
  sandbox = none;
  head_run_id = none;
  turns = [];
}

abbrev after_shown : SessionSnapshot
unfolding get_session session_turns public_events session turn events lookup after
after_shown = outcome no_snapshot (get_session "s2" after.db)

after_shown-ok :
    fork_and_show js pi (λ tip. tip) 1 "s1" (some "t1") "s2" "2026-01-03" 12 "c2" before
    ≡ (ok after_shown, after)
unfolding fork_and_show after_shown
after_shown-ok = refl

fork_and_show_lem_example :
    ((shown : SessionSnapshot)
      → fork_and_show js pi (λ tip. tip) 1 "s1" (some "t1") "s2" "2026-01-03" 12 "c2" before
        ≡ (ok shown, after)
      → Branched js pi (λ tip. tip) 1 "s1" (some "t1") "s2" "2026-01-03" 12 "c2" before after
        × (get_session "s2" after.db ≡ ok shown))
    × ((e : RuntimeError)
        → fork_and_show js pi (λ tip. tip) 1 "s1" (some "t1") "s2" "2026-01-03" 12 "c2" before
          ≡ (err e, after)
        → (after ≡ before)
          ⊎ (Branched js pi (λ tip. tip) 1 "s1" (some "t1") "s2" "2026-01-03" 12 "c2" before after
              × (get_session "s2" after.db ≡ err e)))
fork_and_show_lem_example =
    fork_and_show_lem js pi (λ tip. tip) 1 "s1" (some "t1") "s2" "2026-01-03" 12 "c2" before after

-- the theorem's first part at this branch
branched : Branched js pi (λ tip. tip) 1 "s1" (some "t1") "s2" "2026-01-03" 12 "c2" before after
branched = (fork_and_show_lem_example.0 after_shown after_shown-ok).0

-- the only session has no parent
alone : (id : String) (s : StoredSession) → session id before.db ≡ ok s → s.parent_session_id ≡ none
unfolding session lookup
alone id s found = elim (Bool-cases (str_eq "s1" id)) [
  | inl own ↦
      let same : source ≡ s = cc (rw own at found) in ap (λ x. x.parent_session_id) (sym same)
  | inr other ↦ cc (rw other at found)
]

before-Descends : Descends (λ id. 0) before.db
before-Descends = record { below = λ id parent s found up. let root = alone id s found in cc }

before-IsFresh : IsFresh "s2" before.db
unfolding session lookup
before-IsFresh = record {
  unused = λ s found. cc;
  childless = λ j s found up. let root = alone j s found in cc;
}

fork_session-Descends_example : Descends (ranked_above "s2" "s1" (λ id. 0)) after.db
fork_session-Descends_example =
    fork_session-Descends js pi (λ tip. tip) 1 "s1" (some "t1") "s2" "2026-01-03" 12 "c2" before
      after (λ id. 0) before-Descends before-IsFresh after-ok

-- the search from the branch, which is one above its source
find_owner_lem_example :
    Found js pi "t1" after (ranked_above "s2" "s1" (λ id. 0)) fork_session-Descends_example 2 "s2"
find_owner_lem_example =
    find_owner_lem js pi "t1" after (ranked_above "s2" "s1" (λ id. 0)) fork_session-Descends_example
      2 "s2" (omega arith)

abbrev shown : SessionSnapshot
unfolding get_session session_turns public_events session turn events lookup
shown = outcome no_snapshot (get_session "s1" before.db)

shown-ok : get_session "s1" before.db ≡ ok shown
unfolding shown
shown-ok = refl

fork_session-get_session_example :
    (branch : SessionSnapshot) × (rest : List SessionTurn) × (get_session "s2" after.db ≡ ok branch)
    × (branch.turns ++ rest ≡ shown.turns)
fork_session-get_session_example =
    fork_session-get_session js pi (λ tip. tip) 1 "s1" (some "t1") "s2" "2026-01-03" 12 "c2" before
      after shown shown-ok after-ok
