-- ===== src/Sessions/Branching.antt =====
-- `createSession`, `renameSession` and `forkSession`, with the copy of the Pi history.
use nimplex.Prelude.{
  ℕ, zero, suc, ◌+◌, String, Bool, false, not, Option, none, some, List, [], ◌∷◌, take, get_last?,
  if◌then◌else◌, str_eq, opt_eq, Result, ok, err, ◌>>=◌, ◌>>◌, guard, or_throw,
}
use Prim.Native.String.{◌++◌ as ◌<>◌}
use nimplex.Prelude.Texts.{text_take, is_blank}
use nimplex.Prelude.Dict.{Dict, lookup, insert}
use nimplex.Status.{is_terminal}
use nimplex.Storage.Records.{Json, object, text, PiStorageScope, Tables, no_tables, StorageError}
use nimplex.Storage.Ports.{Platform, PiSession}
use nimplex.Storage.Journal.{open_storage}
use nimplex.Storage.Fork.{import_fork_sync}
use nimplex.Storage.Queries.{get_value}
use nimplex.Store.Members.{get_member}
use nimplex.Store.Records.{
  SessionEngine, StoredSession, RuntimeError, refused, storage, title_required, fork_unfinished,
  fork_interrupted,
}
use nimplex.Store.Tables.{Database, transaction, session, turn, save_session}
use nimplex.Sessions.Seeding.{is_harness}

abbrev pub pi_tenant : String
pi_tenant = "local"

abbrev pub pi_lane : String
pi_lane = "main"

-- `cwd` is already resolved by node:path
unfoldable pub create_session :
    Bool
    → String
    → String
    → Option String
    → Option SessionEngine
    → String
    → Database
    → Result RuntimeError String × Database
create_session closed id cwd title engine at = transaction closed λ db. ok (
  id,
  save_session
      (record {
        id = id;
        cwd = cwd;
        title = elim title [ none ↦ "New conversation" | some t ↦ t ];
        updated_at = at;
        turn_ids = [];
        parent_session_id = none;
        sandbox_state = none;
        sandbox_provider = none;
        sandbox_generation = 0;
        running_since = none;
        running_uncertain = false;
        run_deadline = none;
        usage_summary = none;
        engine = some (elim engine [ none ↦ SessionEngine.pi_harness | some e ↦ e ]);
      })
      db,
)

abbrev renamed : String → String → StoredSession → StoredSession
renamed title at s = record s { title = text_take 120 title; updated_at = at }

unfoldable pub rename_session :
    Bool → String → String → String → Database → Result RuntimeError (Unit {0}) × Database
unfolding is_blank text_take
rename_session closed id title at db =
    if is_blank title
    then (err title_required, db)
    else transaction closed (λ d. do s ← session id d; ok (tt, save_session (renamed title at s) d))
        db

-- `turnIds.indexOf(id)`
unfoldable pub index_of : String → List String → Option ℕ
index_of id [] = none
index_of id (j ∷ ids) =
    let rest = index_of id ids in
    if str_eq j id then some 0 else elim rest [ none ↦ none | some i ↦ some (i + 1) ]

-- the turns that a branch at the selected one inherits
unfoldable pub branch_turns :
    Option String → List String → Database → Result RuntimeError (List String)
unfolding index_of is_terminal
branch_turns none ids db = ok []
branch_turns (some selected) ids db = do
  i ← or_throw (index_of selected ids) fork_unfinished
  t ← turn selected db
  guard (is_terminal t.result.status) fork_unfinished
  guard (not (opt_eq t.result.error (some "runtime_interrupted"))) fork_interrupted
  ok (take (i + 1) ids)

-- an identity that is `""` selects nothing
abbrev pub not_empty : Option String → Option String
not_empty none = none
not_empty (some s) = if str_eq s "" then none else some s

-- the turn that a branch is taken at: the one that is asked for, or the last
abbrev pub selected_turn : Option String → List String → Option String
selected_turn none ids = not_empty (get_last? ids)
selected_turn (some t) ids = not_empty (some t)

abbrev pub branch_of : String → String → String → List String → StoredSession → StoredSession
branch_of id parent_id at turn_ids source = record {
  id = id;
  cwd = source.cwd;
  title = source.title <> " · branch";
  updated_at = at;
  turn_ids = turn_ids;
  parent_session_id = some parent_id;
  sandbox_state = none;
  sandbox_provider = none;
  sandbox_generation = 0;
  running_since = none;
  running_uncertain = false;
  run_deadline = none;
  usage_summary = none;
  engine = source.engine;
}

abbrev pub lift : {A : Type 0} → Result StorageError A → Result RuntimeError A
lift (ok a) = ok a
lift (err e) = err (storage e)

abbrev pub tip_in : Option Json → Option String
tip_in (some (text s)) = some s
tip_in _ = none

-- `{ tipId }` of a settled Pi result
abbrev pub tip_of : Json → Option String
tip_of (object ms) = tip_in (get_member "tipId" ms)
tip_of _ = none

module _ (js : Platform) (pi : PiSession) where
  -- the rows of one database: the runtime's, and Pi's for each session
  pub record Stores : Type 0 where
    pub db : Database
    pub scopes : Dict (Tables js.Text)

  abbrev pub tables_of : String → Stores → Tables js.Text
  tables_of id st = elim (lookup id st.scopes) [ none ↦ no_tables | some t ↦ t ]

  abbrev pub scope_of : String → PiStorageScope
  scope_of id = record { tenant_id = pi_tenant; session_id = id }

  abbrev pub pi_result : String → String → Stores → Option (ℕ × Json)
  pi_result owner turn_id st = get_value "pi.result" turn_id (tables_of owner st).projections.values

  -- The loop up the sessions to the one that ran the turn; `none` where the fuel runs out.
  unfoldable pub find_owner :
      ℕ → String → String → Stores → Option (Result RuntimeError (Option (String × Json)))
  find_owner zero turn_id owner st = none
  find_owner (suc fuel) turn_id owner st = elim (pi_result owner turn_id st) [
    | some (seq, v) ↦ some (ok (some (owner, v)))
    | none ↦ elim (session owner st.db) [
      | err e ↦ some (err e)
      | ok s ↦ elim s.parent_session_id [
        | none ↦ some (ok none)
        | some parent ↦ find_owner fuel turn_id parent st
      ]
    ]
  ]

  abbrev pub owner_of : ℕ → String → String → Stores → Result RuntimeError (String × Json)
  owner_of fuel turn_id source st = elim (find_owner fuel turn_id source st) [
    | none ↦ err (refused "The sessions' parents form a cycle.")
    | some (err e) ↦ err e
    | some (ok none) ↦ err (refused "The selected turn has no settled Pi operation to branch from.")
    | some (ok (some found)) ↦ ok found
  ]

  -- The fork options of Pi's session library for a branch at an entry.
  module _ (at_tip : String → pi.ForkOptions) where
    unfoldable pub fork_pi_session :
        ℕ → String → String → String → ℕ → String → Stores → Result RuntimeError Stores
    unfolding open_storage import_fork_sync insert find_owner lookup get_value get_member
    fork_pi_session fuel source_id branch_id turn_id now commit_id st = do
      (owner, result) ← owner_of fuel turn_id source_id st
      from ← lift (open_storage js pi (scope_of owner) (tables_of owner st))
      to ← lift (open_storage js pi (scope_of branch_id) (tables_of branch_id st))
      tip ←
          or_throw (tip_of result)
            (refused "The selected turn left no conversation to branch from.")
      (receipt, to') ←
          lift (import_fork_sync js pi (scope_of branch_id) from (at_tip tip) now commit_id to)
      ok (record st { scopes = insert branch_id to' (insert owner from st.scopes) })

    -- the operation of `forkSession`'s transaction
    abbrev pub store_branch :
        ℕ
        → String
        → StoredSession
        → StoredSession
        → Option String
        → ℕ
        → String
        → Stores
        → Result RuntimeError Stores
    store_branch fuel id source branch none now commit_id st =
        ok (record st { db = save_session branch st.db })
    store_branch fuel id source branch (some turn_id) now commit_id st =
        let saved : Stores = record st { db = save_session branch st.db } in
        if is_harness source.engine
        then fork_pi_session fuel id branch.id turn_id now commit_id saved
        else ok saved

    -- the reads, the checks and the transaction of `forkSession`
    unfoldable pub forked :
        ℕ
        → String
        → Option String
        → String
        → String
        → ℕ
        → String
        → Stores
        → Result RuntimeError Stores
    unfolding fork_pi_session branch_turns
    forked fuel id turn_id branch_id at now commit_id st = do
      source ← session id st.db
      turn_ids ← branch_turns (selected_turn turn_id source.turn_ids) source.turn_ids st.db
      store_branch fuel id source (branch_of branch_id id at turn_ids source)
          (selected_turn turn_id source.turn_ids) now commit_id st

    abbrev pub settle_fork :
        String → Stores → Result RuntimeError Stores → Result RuntimeError String × Stores
    settle_fork branch_id before (err e) = (err e, before)
    settle_fork branch_id before (ok after) = (ok branch_id, after)

    unfoldable pub fork_session :
        ℕ
        → String
        → Option String
        → String
        → String
        → ℕ
        → String
        → Stores
        → Result RuntimeError String × Stores
    unfolding forked
    fork_session fuel id turn_id branch_id at now commit_id st =
        settle_fork branch_id st (forked fuel id turn_id branch_id at now commit_id st)
