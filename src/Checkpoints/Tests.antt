-- ===== src/Checkpoints/Tests.antt =====
-- One model call and one tool of a small turn, and what an ended turn refuses.
use nimplex.Prelude.{
  arith, ◌+◌, ◌*◌, ◌≤◌, ◌<◌, String, ◌≡◌, ◌≢◌, refl, ◌⊎◌, true, false, some, List, [], ◌∷◌, ◌++◌,
  map, any, Result, ok, err,
}
use nimplex.Prelude.Dict.{Dict, lookup, insert, unique}
use nimplex.Status.{running, completed}
use nimplex.Storage.Records.{text}
use nimplex.Store.Records.{
  Bytes, ExecutorEvent, model_call, tool_result, file_changed, workspace_committed, StoredTurn,
  Workspace, turn_is,
}
use nimplex.Store.Tables.{
  Database, turn, workspace, save_turn, save_workspace, append, events, next_seq, stamp,
}
use nimplex.Store.Events.{log}
use nimplex.Store.Samples.{clock, new_store, store, store-IsLog, before_files, turn_in}
use nimplex.Checkpoints.Steps.{
  Host, cost, rounded_cost, commit_model_in, settle_model, commit_tool_in, active_turn,
  check_workspace_limits, is_attempt, is_settled, file_changes, path_changes, path_change, bytes_eq,
  sum_bytes, revision_of, checkpoint_context, start_model, start_tool, commit_tool,
}
use nimplex.Checkpoints.Settlement.{
  rounded_cost_bounds, Settles, commit_model_in-cases, commit_model_in-again,
}
use nimplex.Checkpoints.Minimal.{IsMinimal}
use nimplex.Checkpoints.Delta.{apply_changes, commit_tool_in-delta}
use nimplex.Checkpoints.History.{
  settlements, IsOnce, IsPlain, History, fresh, then_, model_settled, History-IsOnce,
}
use nimplex.Checkpoints.Guards.{steps-stopped}

abbrev host : Host
host = record { metadata_length = λ m. 2; sha256 = λ b. "digest"; now = clock }

abbrev response : List ExecutorEvent
response = model_call (text "hi") ∷ []

abbrev outcome : {A E : Type 0} → A → Result E A → A
outcome d (ok a) = a
outcome d (err e) = d

abbrev settled_store : Database
unfolding commit_model_in settle_model turn save_turn append next_seq stamp events insert lookup
    rounded_cost
settled_store = outcome store (commit_model_in host "t1" "c1" response (cost 250000000) false store)

settled_store-ok :
    commit_model_in host "t1" "c1" response (cost 250000000) false store ≡ ok settled_store
unfolding settled_store
settled_store-ok = refl

settled_store-again :
    commit_model_in host "t1" "c1" [] (cost 900000000) true settled_store ≡ ok settled_store
unfolding settled_store
settled_store-again = refl

rounded_cost_example :
    (250000000 ≤ rounded_cost 250000000 * 100000000 + 1)
    × (rounded_cost 250000000 * 100000000 < 250000000 + 100000000)
rounded_cost_example = rounded_cost_bounds 250000000

commit_model_in-cases_example :
    (any (is_attempt "c1") (log "t1" store) ≡ true)
    × ((any (is_settled "c1") (log "t1" store) ≡ true) × (settled_store ≡ store)
        ⊎ (any (is_settled "c1") (log "t1" store) ≡ false)
          × Settles host "t1" "c1" response 250000000 false store settled_store)
commit_model_in-cases_example =
    commit_model_in-cases host "t1" "c1" response 250000000 false store settled_store store-IsLog
      settled_store-ok

commit_model_in-again_example :
    commit_model_in host "t1" "c1" [] (cost 900000000) true settled_store ≡ ok settled_store
commit_model_in-again_example =
    commit_model_in-again host "t1" "c1" response [] 250000000 900000000 false true store
      settled_store store-IsLog settled_store-ok

abbrev after_files : Dict Bytes
after_files = ("a.txt", 1 ∷ []) ∷ ("c.txt", 3 ∷ []) ∷ []

abbrev tool_events : List ExecutorEvent
tool_events = tool_result "call-1" "edit" (text "done") false ∷ []

abbrev edited_store : Database
unfolding commit_tool_in active_turn check_workspace_limits workspace turn save_turn save_workspace
    append next_seq stamp insert lookup file_changes path_changes path_change bytes_eq sum_bytes
    unique
edited_store = outcome store (commit_tool_in host "t1" tool_events after_files [] store)

edited_store-ok : commit_tool_in host "t1" tool_events after_files [] store ≡ ok edited_store
unfolding edited_store
edited_store-ok = refl

commit_tool_in-delta_example :
    (t : StoredTurn) × (before : Workspace) × (active_turn "t1" store ≡ ok t)
    × (workspace (some "t1") store ≡ ok before)
    × (workspace (some "t1") edited_store ≡ ok (record { files = after_files; metadata = [] }))
    × (let revision = revision_of t + 1 in
        let changes = file_changes host before.files after_files revision in
        (log "t1" edited_store
          ≡ log "t1" store
            ++ (tool_events ++ map file_changed changes ++ workspace_committed revision [] ∷ []))
        × ((q : String) → lookup q (apply_changes changes before.files) ≡ lookup q after_files)
        × ((q : String) → IsMinimal before.files after_files revision changes q))
commit_tool_in-delta_example =
    commit_tool_in-delta host "t1" tool_events after_files [] store edited_store store-IsLog
      edited_store-ok

-- b.txt is deleted and c.txt is new; a.txt is as it was
changed_paths :
    map (λ c. c.path) (file_changes host before_files.files after_files 1) ≡ "b.txt" ∷ "c.txt" ∷ []
unfolding edited_store
changed_paths = refl

abbrev ended_store : Database
ended_store = record new_store { turns = ("t1", turn_in completed) ∷ [] }

ended_store-turn : turn "t1" ended_store ≡ ok (turn_in completed)
unfolding turn lookup
ended_store-turn = refl

completed-running : completed ≢ running
completed-running = λ e. cc

steps-stopped_example :
    (checkpoint_context host false "t1" (text "") ended_store
      ≡ (err (turn_is completed), ended_store))
    × (start_model host false "t1" "c2" ended_store ≡ (err (turn_is completed), ended_store))
    × (start_tool host false "t1" "call-2" "bash" ended_store
        ≡ (err (turn_is completed), ended_store))
    × (commit_tool host false "t1" tool_events after_files [] ended_store
        ≡ (err (turn_is completed), ended_store))
steps-stopped_example =
    steps-stopped host "t1" (turn_in completed) ended_store ended_store-turn completed-running
      "call-2" "bash" "c2" (text "") tool_events after_files []

store-IsOnce : IsOnce host "t1" store
unfolding append events next_seq stamp settlements
store-IsOnce = (store-IsLog, λ c. omega arith)

IsPlain-response : IsPlain response
IsPlain-response = λ c. refl

-- the call is settled, and settled again with another cost
store-History : History host "t1" store settled_store
store-History =
    then_
      (then_ fresh (model_settled "c1" response 250000000 false IsPlain-response settled_store-ok))
      (model_settled "c1" [] 900000000 true (λ c. refl) settled_store-again)

History-IsOnce_example : IsOnce host "t1" settled_store
History-IsOnce_example = History-IsOnce host "t1" store-IsOnce store-History
