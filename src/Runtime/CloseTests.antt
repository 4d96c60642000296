-- ===== src/Runtime/CloseTests.antt =====
-- A store with an interrupted session, an ended one with a running sandbox, and an untouched one.
use nimplex.Prelude.{
  ◌≡◌, refl, ◌∙◌, sym, ap, inl, inr, Bool, true, false, Bool-cases, str_eq, eq_iff, some, [], ◌∷◌,
  All, map, ok,
}
use nimplex.Prelude.Dict.{lookup, insert, erase}
use nimplex.Status.{running, completed, failed}
use nimplex.Storage.Records.{object, end}
use nimplex.Store.Records.{StoredSession, Sandbox, docker, SandboxSessionState}
use nimplex.Store.Tables.{
  Database, session, turn, save_session, delete_session, transaction, append_sandbox_usage,
  next_usage_seq, empty_database,
}
use nimplex.Store.Samples.{clock, turn_in, session_row}
use nimplex.Metering.Rates.{lookup_sandbox_rate, interval_cost}
use nimplex.Metering.Usage.{
  settle_sandbox_usage, settle_interval, interval_end, append_usage, note_usage, usage_record,
  add_to_summary,
}
use nimplex.Runtime.Lifecycle.{end_turn, interrupted_error}
use nimplex.Runtime.Sandboxes.{IsOwned}
use nimplex.Runtime.Closing.{
  resumable, discard_sandbox, cleanup_sandbox, close_session, close_all, close_sessions,
}
use nimplex.Prelude.{err}
use nimplex.Prelude.Dict.{contains}
use nimplex.Store.Records.{RuntimeError}
use nimplex.Store.Tables.{sessions_with_open_interval, append, next_seq, stamp, save_turn}
use nimplex.Status.{is_terminal}
use nimplex.Metering.Usage.{inherit_sandbox_usage}
use nimplex.Runtime.Lifecycle.{recover_turns, interrupt_turns, interrupt_turn}
use nimplex.Runtime.Recovery.{IsKeyed}
use nimplex.Runtime.Opening.{recover, recover_in, inherit_all, Recovered, recover_lem}
use nimplex.Runtime.Survival.{Survives, close_sessions_lem}

abbrev interrupted : StoredSession
interrupted = record session_row {
  sandbox_state = some (record {
    version = 1;
    backend_id = "docker";
    provider_state = object end;
    workdir = "/workspace";
  });
  sandbox_provider = some docker;
  running_since = some 1000;
}

abbrev ended : StoredSession
ended = record interrupted { id = "s2"; turn_ids = "t2" ∷ [] }

abbrev untouched : StoredSession
untouched = record session_row { id = "s3"; title = "New conversation"; turn_ids = [] }

abbrev store : Database
store = record empty_database {
  sessions = ("s1", interrupted) ∷ ("s2", ended) ∷ ("s3", untouched) ∷ [];
  turns =
      ("t1", end_turn failed (some interrupted_error) "2026-01-02" (turn_in running))
      ∷ ("t2", turn_in completed)
      ∷ [];
}

abbrev deletes : Sandbox → SandboxSessionState → Bool
deletes p s = true

abbrev closed : Database
unfolding close_sessions close_all close_session resumable cleanup_sandbox discard_sandbox
    settle_sandbox_usage settle_interval interval_end append_usage note_usage usage_record
    add_to_summary lookup_sandbox_rate interval_cost append_sandbox_usage next_usage_seq transaction
    delete_session session turn save_session lookup insert erase
closed = (close_sessions deletes (λ t. 0) clock 5000 store).1

closed-ok : close_sessions deletes (λ t. 0) clock 5000 store ≡ (ok tt, closed)
unfolding closed
closed-ok = refl

store-IsOwned : IsOwned store
unfolding lookup
store-IsOwned = record {
  own = λ k s found. elim (Bool-cases (str_eq "s1" k)) [
    | inl first ↦
        let same : interrupted ≡ s = cc (rw first at found) in
        ap (λ x. x.id) (sym same) ∙ (eq_iff "s1" k).0 first
    | inr not_first ↦ elim (Bool-cases (str_eq "s2" k)) [
      | inl second ↦
          let same : ended ≡ s = cc (rw (not_first, second) at found) in
          ap (λ x. x.id) (sym same) ∙ (eq_iff "s2" k).0 second
      | inr not_second ↦ elim (Bool-cases (str_eq "s3" k)) [
        | inl third ↦
            let same : untouched ≡ s = cc (rw (not_first, not_second, third) at found) in
            ap (λ x. x.id) (sym same) ∙ (eq_iff "s3" k).0 third
        | inr not_third ↦ cc (rw (not_first, not_second, not_third) at found)
      ]
    ]
  ];
}

other_session : (u : StoredSession) → str_eq u.id "s1" ≡ false → u.id ≡ "s1" → u ≡ interrupted
other_session u apart own = let same = (eq_iff u.id "s1").1 own in cc

alone : All (λ (u : StoredSession). u.id ≡ "s1" → u ≡ interrupted) (map (λ e. e.1) store.sessions)
alone = (λ own. refl, (other_session ended refl, (other_session untouched refl, tt)))

close_sessions_lem_example : Survives deletes (λ t. 0) clock 5000 "s1" interrupted store closed
unfolding lookup
close_sessions_lem_example =
    close_sessions_lem deletes (λ t. 0) clock 5000 "s1" interrupted store closed store-IsOwned refl
      refl alone closed-ok

-- the same sessions in a store whose first turn was running
abbrev crashed : Database
crashed = record store {
  turns =
      ("t1", turn_in running)
      ∷ (
        "t2",
        record (turn_in completed) { result = record (turn_in completed).result { id = "t2" } },
      )
      ∷ [];
}

crashed-IsKeyed : IsKeyed crashed.turns
unfolding contains
crashed-IsKeyed = (refl, refl, (refl, refl, tt))

crashed-IsOwned : IsOwned crashed
crashed-IsOwned = record { own = store-IsOwned.own }

abbrev reopened : Database
unfolding recover recover_in inherit_all interrupt_turns interrupt_turn append next_seq stamp
    save_turn is_terminal settle_sandbox_usage inherit_sandbox_usage recover_turns
    sessions_with_open_interval transaction insert
reopened = (recover "2026-01-02" clock (λ t. 0) 5000 crashed).1

recover_lem_example :
    (recover "2026-01-02" clock (λ t. 0) 5000 crashed ≡ (ok tt, reopened)
      → Recovered "2026-01-02" clock (λ t. 0) 5000 crashed reopened)
    × ((e : RuntimeError)
        → recover "2026-01-02" clock (λ t. 0) 5000 crashed ≡ (err e, reopened)
        → reopened ≡ crashed)
recover_lem_example =
    recover_lem "2026-01-02" clock (λ t. 0) 5000 crashed reopened crashed-IsKeyed crashed-IsOwned
      (record { dense = λ id. tt })

-- the theorem's first part at the recovery, which returns
reopened-Recovered : Recovered "2026-01-02" clock (λ t. 0) 5000 crashed reopened
unfolding reopened
reopened-Recovered = recover_lem_example.0 refl
