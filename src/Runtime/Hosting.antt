-- ===== src/Runtime/Hosting.antt =====
-- The host of a turn's native commands is good on stores whose logs have no gaps: it keeps them so, and
-- only adds to the turn's log.
use nimplex.Prelude.{
  ℕ, ◌+◌, ◌≡◌, refl, Bool, true, false, some, List, ◌++◌, if◌then◌else◌, Result, ok, err, ◌>>=◌,
  >>=-eq-ok, ap, sym, ◌∙◌,
}
use nimplex.Store.Records.{ExecutorEvent, SandboxSessionState, RuntimeError, runtime_closed}
use nimplex.Store.Tables.{Database, transaction, settle, session, turn, save_session}
use nimplex.Store.Events.{IsLog, log, log-append}
use nimplex.Metering.Usage.{start_sandbox_usage}
use nimplex.Native.Host.{NativeHostLaws, IsExtending}
use nimplex.Runtime.Growth.{
  Grows, Grows-refl, Grows-trans, grown, save_session-Grows, save_turn-Grows, append-Grows,
  start_sandbox_usage-Grows, record_sandbox_transition-Grows, record_discarded_sandbox-Grows,
}
use nimplex.Runtime.Executing.{
  Execution, check_active, commit, if_active, store_sandbox, add_events, turn_host,
}

module _ (x : Execution) where
  settle-Grows :
      (before : Database) (r : Result RuntimeError Database)
      → ((db : Database) → r ≡ ok db → Grows x.id before db)
      → Grows x.id before (settle before (r >>= λ db. ok (tt, db))).1
  settle-Grows before (err e) h = Grows-refl x.id before
  settle-Grows before (ok db) h = h db refl

  unless_closed-Grows :
      (closed : Bool) (before : Database) (r : Result RuntimeError Database)
      → ((db : Database) → r ≡ ok db → Grows x.id before db)
      → Grows x.id before
          (if closed
            then (err runtime_closed, before)
            else settle before (r >>= λ db. ok (tt, db))).1
  unless_closed-Grows true before r h = Grows-refl x.id before
  unless_closed-Grows false before r h = settle-Grows before r h

  commit-Grows :
      (n : ℕ) (operation : Database → Result RuntimeError Database)
      → ((db db' : Database) → operation db ≡ ok db' → Grows x.id db db')
      → (db : Database) → Grows x.id db (commit x n operation db).1
  unfolding commit transaction
  commit-Grows n operation h db = unless_closed-Grows (x.closed n) db (operation db) (h db)

  if_active-Grows :
      (r : Result RuntimeError (Unit {0}))
      (operation : Database → Result RuntimeError (Unit {0}) × Database)
      → ((db : Database) → Grows x.id db (operation db).1)
      → (db : Database) → Grows x.id db (if_active x r operation db).1
  if_active-Grows (err e) operation h db = Grows-refl x.id db
  if_active-Grows (ok u) operation h db = h db

  store_sandbox-Grows :
      (s : SandboxSessionState) (reset : Bool) (started : ℕ) (db db' : Database)
      → store_sandbox x s reset started db ≡ ok db'
      → Grows x.id db db'
  unfolding store_sandbox
  store_sandbox-Grows s reset started db db' h =
      let (current, found, h1) = >>=-eq-ok (session x.session_id db) _ h in
      let generation = current.sandbox_generation + 1 in
      let stored = record current {
        sandbox_state = some s;
        sandbox_provider = some x.sandbox;
        sandbox_generation = generation;
      } in
      let (db1, metered, h2) =
        >>=-eq-ok (start_sandbox_usage x.session_id started x.max_run_ms (save_session stored db)) _
          h1 in
      let (live, stands, h3) = >>=-eq-ok (turn x.id db1) _ h2 in
      grown x.id
        (Grows-trans x.id (save_session-Grows x.id stored db) (
          Grows-trans x.id
            (start_sandbox_usage-Grows x.id x.session_id started x.max_run_ms _ db1 metered)
            (Grows-trans x.id (save_turn-Grows x.id _ db1) (append-Grows x.id x.now x.id _ _))))
        h3

  extending :
      (op : Database → Result RuntimeError (Unit {0}) × Database)
      → ((db : Database) → Grows x.id db (op db).1)
      → IsExtending (turn_host x) IsLog op
  unfolding turn_host
  extending op grows = record { keeps = λ db. (grows db).dense; extends = λ db. (grows db).longer }

  add_events-Grows :
      (es : List ExecutorEvent) (db db' : Database)
      → add_events x es db ≡ ok db'
      → Grows x.id db db'
  unfolding add_events
  add_events-Grows es db db' h = grown x.id (append-Grows x.id x.now x.id es db) h

  -- a closed store has not answered
  added_open :
      (closed : Bool) (es : List ExecutorEvent) (db db' : Database)
      → IsLog db
      → (if closed
          then (err runtime_closed, db)
          else settle db (add_events x es db >>= λ db. ok (tt, db)))
        ≡ (ok tt, db')
      → log x.id db' ≡ log x.id db ++ es
  unfolding add_events
  added_open true es db db' good h = cc
  added_open false es db db' good h =
      ap (λ r. log x.id r.1) (sym h) ∙ (log-append x.now x.id es db good).1

  added :
      (r : Result RuntimeError (Unit {0})) (n : ℕ) (es : List ExecutorEvent) (db db' : Database)
      → IsLog db
      → if_active x r (commit x n (add_events x es)) db ≡ (ok tt, db')
      → log x.id db' ≡ log x.id db ++ es
  unfolding commit transaction
  added (err e) n es db db' good h = cc
  added (ok u) n es db db' good h = added_open (x.closed n) es db db' good h

  -- The operations of the runtime fill the interface of a native command's host.
  pub turn_host-NativeHostLaws : NativeHostLaws (turn_host x) IsLog
  unfolding turn_host
  turn_host-NativeHostLaws = record {
    assert_active-extends = λ n. extending _ λ db. Grows-refl x.id db;
    record_state-extends = λ s reset at n.
        extending _
          λ db. if_active-Grows _ _ (commit-Grows n _ (store_sandbox-Grows s reset at)) db;
    sandbox_transition-extends = λ t at n. extending _ (
        commit-Grows n _
          (record_sandbox_transition-Grows x.id x.number_value x.now x.session_id t _ _ _));
    sandbox_discarded-extends = λ s at stopped n. extending _ (
        commit-Grows n _ (
          record_discarded_sandbox-Grows x.id x.number_value x.now x.session_id x.sandbox s at
            stopped x.id _ _));
    append_events-extends =
        λ es n. extending _ λ db. if_active-Grows _ _ (commit-Grows n _ (add_events-Grows es)) db;
    append_events-appends = λ es n db db' good h. added (check_active x n db) n es db db' good h;
  }
