-- ===== src/Store/Tables.antt =====
-- `RuntimeStore`: reads and writes of the tables, and transactions.
use nimplex.Prelude.{
  ℕ, suc, ◌+◌, max, String, Bool, true, false, ◌&&◌, Option, none, some, List, [], ◌∷◌, ◌++◌, map,
  filter, find, any, if◌then◌else◌, ltb, str_eq, Result, ok, err, ◌>>=◌, ◌>>◌, guard, or_throw,
}
use nimplex.Prelude.Dict.{Dict, lookup, insert, erase}
use nimplex.Prelude.Sorting.{order_by}
use nimplex.Store.Records.{
  Workspace, AcceptedTurnInput, RunEvent, ExecutorEvent, StoredTurn, StoredSession,
  SandboxUsageRecord, RuntimeError, runtime_closed, constraint_failed, session_has_turns,
  session_not_found, turn_not_found, workspace_not_found,
}

pub record UsageEntry : Type 0 where
  pub session_id : String
  pub seq : ℕ
  pub record_data : SandboxUsageRecord

pub record Database : Type 0 where
  pub sessions : Dict StoredSession
  pub turns : Dict StoredTurn
  pub events : List RunEvent
  pub workspaces : Dict Workspace
  pub ledger : List UsageEntry
  pub accepted_inputs : List AcceptedTurnInput

abbrev pub empty_database : Database
empty_database = record {
  sessions = [];
  turns = [];
  events = [];
  workspaces = [];
  ledger = [];
  accepted_inputs = [];
}

-- `transaction`: BEGIN, the operation, COMMIT; ROLLBACK on a throw
abbrev pub settle :
    {A : Type 0} → Database → Result RuntimeError (A × Database) → Result RuntimeError A × Database
settle before (err e) = (err e, before)
settle before (ok (a, after)) = (ok a, after)

unfoldable pub transaction :
    {A : Type 0}
    → Bool
    → (Database → Result RuntimeError (A × Database))
    → Database
    → Result RuntimeError A × Database
transaction closed operation db =
    if closed then (err runtime_closed, db) else settle db (operation db)

unfoldable pub session : String → Database → Result RuntimeError StoredSession
unfolding lookup
session id db = or_throw (lookup id db.sessions) (session_not_found id)

unfoldable pub turn : String → Database → Result RuntimeError StoredTurn
unfolding lookup
turn id db = or_throw (lookup id db.turns) (turn_not_found id)

unfoldable pub save_session : StoredSession → Database → Database
unfolding insert
save_session s db = record db { sessions = insert s.id s db.sessions }

unfoldable pub save_turn : StoredTurn → Database → Database
unfolding insert
save_turn t db = record db { turns = insert t.result.id t db.turns }

abbrev pub is_nil {ℓ} : {A : Type ℓ} → List A → Bool
is_nil [] = true
is_nil (x ∷ xs) = false

unfoldable pub delete_session : String → Database → Result RuntimeError Database
unfolding session erase
delete_session id db = do
  s ← session id db
  guard (is_nil s.turn_ids) session_has_turns
  ok (record db { sessions = erase id db.sessions })

abbrev pub is_input : String → String → AcceptedTurnInput → Bool
is_input session_id request_id i = str_eq i.session_id session_id && str_eq i.request_id request_id

unfoldable pub accepted_input : String → String → Database → Option AcceptedTurnInput
accepted_input session_id request_id db = find (is_input session_id request_id) db.accepted_inputs

-- PRIMARY KEY(session_id,request_id)
unfoldable pub save_accepted_input : AcceptedTurnInput → Database → Result RuntimeError Database
save_accepted_input i db =
    if any (is_input i.session_id i.request_id) db.accepted_inputs
    then err constraint_failed
    else ok (record db { accepted_inputs = db.accepted_inputs ++ i ∷ [] })

-- `events(id, after)`, with `none` for the default -1
abbrev pub is_after : Option ℕ → ℕ → Bool
is_after none seq = true
is_after (some n) seq = ltb n seq

unfoldable pub events : String → Option ℕ → Database → List RunEvent
unfolding order_by
events id after db =
    order_by (λ (e : RunEvent). e.seq)
      (filter (λ (e : RunEvent). str_eq e.turn_id id && is_after after e.seq) db.events)

-- one more than COALESCE(MAX(seq),-1) of the turn's rows
unfoldable pub next_seq : String → List RunEvent → ℕ
next_seq id [] = 0
next_seq id (e ∷ rows) =
    let rest = next_seq id rows in if str_eq e.turn_id id then max (suc e.seq) rest else rest

-- one row for each event; `now` reads the clock for the row of a sequence number
unfoldable pub stamp : (ℕ → String) → String → ℕ → List ExecutorEvent → List RunEvent
stamp now id seq [] = []
stamp now id seq (e ∷ es) =
    record { turn_id = id; seq = seq; created_at = now seq; event = e } ∷ stamp now id (seq + 1) es

unfoldable pub append : (ℕ → String) → String → List ExecutorEvent → Database → Database
unfolding next_seq stamp
append now id es db = record db { events = db.events ++ stamp now id (next_seq id db.events) es }

abbrev no_workspace : Workspace
no_workspace = record { files = []; metadata = [] }

unfoldable pub workspace : Option String → Database → Result RuntimeError Workspace
unfolding lookup
workspace none db = ok no_workspace
workspace (some id) db = or_throw (lookup id db.workspaces) (workspace_not_found id)

unfoldable pub save_workspace : String → Workspace → Database → Database
unfolding insert
save_workspace id w db = record db { workspaces = insert id w db.workspaces }

-- one more than COALESCE(MAX(seq),-1) of the session's ledger
unfoldable pub next_usage_seq : String → List UsageEntry → ℕ
next_usage_seq id [] = 0
next_usage_seq id (u ∷ rows) =
    let rest = next_usage_seq id rows in
    if str_eq u.session_id id then max (suc u.seq) rest else rest

unfoldable pub append_sandbox_usage : String → SandboxUsageRecord → Database → Database
unfolding next_usage_seq
append_sandbox_usage id r db = record db {
  ledger =
      db.ledger
      ++ record { session_id = id; seq = next_usage_seq id db.ledger; record_data = r } ∷ [];
}

unfoldable pub sandbox_usage_of : String → Database → List SandboxUsageRecord
unfolding order_by
sandbox_usage_of id db =
    map (λ u. u.record_data)
      (order_by (λ (u : UsageEntry). u.seq)
        (filter (λ (u : UsageEntry). str_eq u.session_id id) db.ledger))

-- `sessionsWithOpenSandboxInterval`
abbrev is_open : StoredSession → Bool
is_open s = elim s.running_since [ none ↦ false | some at ↦ true ]

unfoldable pub sessions_with_open_interval : Database → List StoredSession
sessions_with_open_interval db = filter is_open (map (λ e. e.1) db.sessions)
