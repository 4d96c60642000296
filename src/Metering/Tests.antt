-- ===== src/Metering/Tests.antt =====
-- The settlement of a sandbox that ran past its deadline.
use nimplex.Prelude.{
  ℕ, String, ◌≡◌, refl, inl, inr, true, false, none, some, [], ◌∷◌, ◌++◌, Bool-cases, str_eq,
  eq_iff, Result, ok, err,
}
use nimplex.Prelude.Dict.{lookup, insert}
use nimplex.Storage.Records.{end, member, number, object}
use nimplex.Store.Members.{get_member}
use nimplex.Store.Records.{StoredSession, SandboxSessionState, SandboxUsageRecord, e2b, paused}
use nimplex.Store.Tables.{
  Database, empty_database, session, save_session, append_sandbox_usage, next_usage_seq,
}
use nimplex.Store.Samples.{clock, session_row}
use nimplex.Metering.Rates.{interval_cost, lookup_sandbox_rate, size_of}
use nimplex.Metering.Usage.{
  SandboxTransition, record_sandbox_transition, record_transition, settle_sandbox_usage,
  settle_interval, append_usage, note_usage, usage_record, interval_end, add_to_summary,
}
use nimplex.Metering.Summary.{ShownUsage, sandbox_usage_summary, Shows, sandbox_usage_summary_lem}
use nimplex.Metering.Ledger.{IsMetered, ledger_of, total_from}
use nimplex.Metering.Intervals.{Meters, reported, Meters-IsMetered}
use nimplex.Metering.Bounds.{IsWithin, settle_sandbox_usage_lem}

-- a host on which every number of a JSON text is 2
abbrev number_value : String → ℕ
number_value s = 2

abbrev state : SandboxSessionState
state = record {
  version = 1;
  backend_id = "e2b";
  provider_state = object (member "cpuCount" (number "2") end);
  workdir = "/workspace";
}

abbrev metered_row : StoredSession
metered_row = record session_row {
  sandbox_state = some state;
  sandbox_provider = some e2b;
  running_since = some 1000;
  run_deadline = some 301000;
}

abbrev metered_store : Database
metered_store = record empty_database { sessions = ("s1", metered_row) ∷ [] }

metered_store-IsMetered : IsMetered metered_store
unfolding lookup total_from
metered_store-IsMetered id s e = elim (Bool-cases (str_eq "s1" id)) [
  | inl own ↦
      let same : metered_row ≡ s = cc (rw own at e) in rw (← same) ((eq_iff "s1" id).0 own, refl)
  | inr other ↦ cc (rw other at e)
]

abbrev outcome : {A E : Type 0} → A → Result E A → A
outcome d (ok a) = a
outcome d (err e) = d

abbrev paused_store : Database
unfolding record_sandbox_transition record_transition settle_sandbox_usage settle_interval
    append_usage note_usage usage_record interval_end add_to_summary interval_cost
    lookup_sandbox_rate size_of get_member session save_session append_sandbox_usage next_usage_seq
    lookup insert
paused_store = outcome metered_store (
    record_sandbox_transition number_value clock "s1" SandboxTransition.paused none 401000 none
      metered_store)

paused_store-Meters : Meters number_value clock metered_store paused_store
unfolding paused_store
paused_store-Meters = reported "s1" SandboxTransition.paused none 401000 none refl

-- 300 seconds of the default size, in nano-dollars: the deadline, not the time of the pause
paused_ledger :
    ledger_of "s1" paused_store.ledger
    ≡ record {
      provider = e2b;
      reason = paused;
      started_at = 1000;
      ended_at = 301000;
      milliseconds = 300000;
      cost = some 9075000;
      uncertain = true;
      turn_id = none;
    }
      ∷ []
unfolding paused_store
paused_ledger = refl

Meters-IsMetered_example : IsMetered paused_store
Meters-IsMetered_example =
    Meters-IsMetered number_value clock paused_store-Meters metered_store-IsMetered

session-metered_store : session "s1" metered_store ≡ ok metered_row
unfolding session lookup
session-metered_store = refl

paused_store-settled :
    settle_sandbox_usage number_value clock "s1" paused none 401000 false metered_store
    ≡ ok paused_store
unfolding paused_store
paused_store-settled = refl

settle_sandbox_usage_lem_example :
    (r : SandboxUsageRecord) × (s' : StoredSession) × (ledger_of "s1" paused_store.ledger
      ≡ ledger_of "s1" metered_store.ledger ++ r ∷ [])
    × IsWithin 1000 401000 (some 301000) r
    × (session "s1" paused_store ≡ ok s')
    × (s'.running_since ≡ none)
settle_sandbox_usage_lem_example =
    settle_sandbox_usage_lem number_value clock "s1" paused none 401000 false metered_row 1000 e2b
      metered_store paused_store metered_store-IsMetered session-metered_store refl refl
      paused_store-settled

sandbox_usage_summary_lem_example :
    ((v : ShownUsage)
      → sandbox_usage_summary metered_row ≡ some v
      → Shows metered_row (ledger_of "s1" metered_store.ledger) v)
    × (sandbox_usage_summary metered_row ≡ none
        → (ledger_of "s1" metered_store.ledger ≡ []) × (metered_row.running_since ≡ none))
sandbox_usage_summary_lem_example =
    sandbox_usage_summary_lem "s1" metered_row metered_store metered_store-IsMetered
      session-metered_store
