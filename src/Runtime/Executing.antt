-- ===== src/Runtime/Executing.antt =====
-- What `execute` gives a native command as its host: the turn's operations on the store.
use nimplex.Prelude.{
  ℕ, ◌+◌, String, Bool, false, not, ◌||◌, Option, none, some, List, [], ◌∷◌, if◌then◌else◌, ltb,
  Result, ok, err, ◌>>=◌, ◌>>◌, guard,
}
use nimplex.Status.{running, status_eq}
use nimplex.Storage.Records.{Json, null, object}
use nimplex.Store.Members.{get_member}
use nimplex.Store.Records.{
  ExecutorEvent, sandbox_created, environment_reset, Sandbox, SandboxSessionState, RuntimeError,
  refused,
}
use nimplex.Store.Tables.{Database, transaction, session, turn, save_session, save_turn, append}
use nimplex.Store.Events.{log}
use nimplex.Metering.Usage.{
  start_sandbox_usage, record_sandbox_transition, record_discarded_sandbox,
}
use nimplex.Native.Host.{NativeHost}

-- What the execution of a turn reads of the outside, at each request: the turn's abort signal, whether the
-- store is closed, the clock; and what the texts of values are.
pub record Execution : Type 0 where
  pub id : String
  pub session_id : String
  pub sandbox : Sandbox
  pub max_run_ms : Option ℕ
  pub aborted : ℕ → Bool
  pub closed : ℕ → Bool
  pub clock : ℕ → ℕ
  pub now : ℕ → String
  pub number_value : String → ℕ
  pub json_text : Json → String

abbrev pub present : Option Json → Option Json
present (some null) = none
present j = j

abbrev pub provider_member : String → Json → Option Json
unfolding get_member
provider_member key (object ms) = present (get_member key ms)
provider_member key j = none

module _ (x : Execution) where
  abbrev pub sandbox_ref : SandboxSessionState → String
  sandbox_ref s = elim (provider_member "sandboxId" s.provider_state) [
    | some j ↦ x.json_text j
    | none ↦ elim (provider_member "containerId" s.provider_state) [
      | some j ↦ x.json_text j
      | none ↦ ""
    ]
  ]

  -- `assertActive`
  unfoldable pub check_active : ℕ → Database → Result RuntimeError (Unit {0})
  check_active n db = do
    guard (not (x.aborted n)) (refused "aborted")
    t ← turn x.id db
    guard (status_eq t.result.status running) (refused "Turn is no longer running.")

  -- a transaction that answers nothing
  unfoldable pub commit :
      ℕ
      → (Database → Result RuntimeError Database)
      → Database
      → Result RuntimeError (Unit {0}) × Database
  unfolding transaction
  commit n operation = transaction (x.closed n) λ db. do db' ← operation db; ok (tt, db')

  abbrev pub if_active :
      Result RuntimeError (Unit {0})
      → (Database → Result RuntimeError (Unit {0}) × Database)
      → Database
      → Result RuntimeError (Unit {0}) × Database
  if_active (err e) operation db = (err e, db)
  if_active (ok u) operation db = operation db

  abbrev pub created_events : Bool → ℕ → List ExecutorEvent
  created_events reset generation =
      sandbox_created x.sandbox generation
      ∷ (if reset || ltb 1 generation then environment_reset generation ∷ [] else [])

  unfoldable pub store_sandbox :
      SandboxSessionState → Bool → ℕ → Database → Result RuntimeError Database
  store_sandbox s reset started db = do
    current ← session x.session_id db
    let generation = current.sandbox_generation + 1
    db1 ← start_sandbox_usage x.session_id started x.max_run_ms (
        save_session
          (record current {
            sandbox_state = some s;
            sandbox_provider = some x.sandbox;
            sandbox_generation = generation;
          })
          db)
    live ← turn x.id db1
    ok (
        append x.now x.id (created_events reset generation) (
          save_turn
            (record live {
              result = record live.result {
                sandbox_generation = some generation;
                sandbox_ref = some (sandbox_ref s);
              };
            })
            db1))

  abbrev pub or_now : Option ℕ → ℕ → ℕ
  or_now none n = x.clock n
  or_now (some at) n = at

  unfoldable pub add_events : List ExecutorEvent → Database → Result RuntimeError Database
  add_events es db = ok (append x.now x.id es db)

  unfoldable pub turn_host : NativeHost Database
  unfolding check_active commit store_sandbox add_events
  turn_host = record {
    assert_active = λ n db. (check_active n db, db);
    record_state =
        λ s reset at n db. if_active (check_active n db) (commit n (store_sandbox s reset at)) db;
    sandbox_transition = λ t at n. commit n (
        record_sandbox_transition x.number_value x.now x.session_id t (some x.id) (or_now at n)
          x.max_run_ms);
    sandbox_discarded = λ s started stopped n. commit n (
        record_discarded_sandbox x.number_value x.now x.session_id x.sandbox s started stopped x.id
          x.max_run_ms (x.clock n));
    append_events = λ es n db. if_active (check_active n db) (commit n (add_events es)) db;
    read_events = log x.id;
    generation = λ db. elim (session x.session_id db) [ ok s ↦ s.sandbox_generation | err e ↦ 0 ];
    should_destroy_on_abort = λ db. false;
  }
