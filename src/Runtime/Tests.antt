-- ===== src/Runtime/Tests.antt =====
-- The end, the recovery and the resumption of a small turn.
use nimplex.Prelude.{
  String, ◌≡◌, refl, true, false, none, some, [], ◌∷◌, ◌++◌, opt_eq, get_last?, ok, err,
  ok-injective, ap, sym,
}
use mathlib.Core.Option
use nimplex.Prelude.Dict.{lookup, insert, contains}
use nimplex.Status.{running, completed, failed, canceled, is_terminal}
use nimplex.Store.Records.{StoredSession, StoredTurn, active_turn, run_finished, run_resumed}
use nimplex.Store.Tables.{Database, turn, session, save_turn, append, next_seq, stamp}
use nimplex.Store.Events.{log}
use nimplex.Store.Samples.{clock, store, store-IsLog, turn_in, session_row}
use nimplex.Runtime.Lifecycle.{
  interrupted_error, end_turn, finish, recover_turns, interrupt_turns, interrupt_turn, Runtime,
  set_running, resume_turn, launch,
}
use nimplex.Runtime.Recovery.{IsKeyed, interrupted, lookup-recover_turns, recover_turns-ended}
use nimplex.Runtime.Finish.{finish_lem, finish-finish}
use nimplex.Runtime.Resume.{resume_turn_lem, recover_turns-IsLog, resume_turn-recover_turns}
use nimplex.Prelude.{◌⊎◌, Result}
use nimplex.Prelude.Texts.{text_take, text_length}
use nimplex.Prelude.Dict.{unique}
use nimplex.Store.Records.{RuntimeError}
use nimplex.Store.Tables.{
  events, workspace, save_session, save_workspace, save_accepted_input, accepted_input, transaction,
}
use nimplex.Checkpoints.Steps.{check_workspace_limits, sum_bytes}
use nimplex.Sessions.Samples
use nimplex.Sessions.Requests.{is_request, id_chars, resolve_local_model}
use nimplex.Sessions.Attachments.{attach, attach_all}
use nimplex.Sessions.Conversation.{continuation_messages, outcomes, event_messages, all_messages}
use nimplex.Sessions.Seeding.{
  Fresh, seed_turn, store_seed, plan_turn, open_conversation, seed_workspace, select_model,
}
use nimplex.Runtime.Starting.{Started, start_new, start_turn}
use nimplex.Runtime.Admission.{Repeated, Admitted, start_turn-cases}
use nimplex.Runtime.Once.{start_turn-again}

abbrev late : String
late = "2026-01-02T00:00:00.000Z"

store-turn : turn "t1" store ≡ ok (turn_in running)
unfolding turn lookup append
store-turn = refl

finish_lem_example :
    let (r, db') = finish late clock false "t1" completed none store in
    (r ≡ ok tt)
    × (is_terminal running ≡ true → db' ≡ store)
    × (is_terminal running ≡ false
        → (turn "t1" db' ≡ ok (end_turn completed none late (turn_in running)))
          × (log "t1" db' ≡ log "t1" store ++ run_finished completed none ∷ []))
finish_lem_example =
    finish_lem late clock "t1" completed none store {t = turn_in running} store-IsLog refl
      store-turn

finish-finish_example :
    finish late clock false "t1" failed
      (some "timeout")
      (finish late clock false "t1" canceled none store).1
    ≡ (ok tt, (finish late clock false "t1" canceled none store).1)
unfolding is_terminal
finish-finish_example =
    finish-finish late clock "t1" canceled failed none (some "timeout") store {t = turn_in running}
      refl store-turn refl

store-IsKeyed : IsKeyed store.turns
unfolding append contains
store-IsKeyed = (refl, refl, tt)

lookup-recover_turns_example :
    lookup "t1" (recover_turns late clock store).turns
    ≡ Option.map (interrupted late clock) (lookup "t1" store.turns)
lookup-recover_turns_example = lookup-recover_turns late clock store "t1" store-IsKeyed

abbrev recovered : Database
unfolding recover_turns interrupt_turns interrupt_turn is_terminal save_turn append next_seq stamp
    insert
recovered = recover_turns late clock store

abbrev interrupted_turn : StoredTurn
interrupted_turn = end_turn failed (some interrupted_error) late (turn_in running)

recovered-turn : lookup "t1" (recover_turns late clock store).turns ≡ some interrupted_turn
unfolding recovered lookup
recovered-turn = refl

recover_turns-ended_example : is_terminal interrupted_turn.result.status ≡ true
recover_turns-ended_example =
    recover_turns-ended late clock store "t1" {t = interrupted_turn} store-IsKeyed recovered-turn

abbrev opened : Runtime
opened = record { db = recover_turns late clock store; closing = false; active = [] }

resume_turn-recover_turns_example :
    (rt' : Runtime) × (resume_turn clock "s1" opened ≡ ok ("t1", rt'))
unfolding append lookup session is_terminal
resume_turn-recover_turns_example =
    resume_turn-recover_turns late clock "s1" "t1" store (turn_in running) session_row store-IsKeyed
      refl refl refl refl refl

abbrev resumed : Runtime
unfolding launch save_turn append next_seq stamp insert recovered
resumed = launch (set_running interrupted_turn) (record opened {
  db =
      append clock "t1" (run_resumed "s1" ∷ [])
        (save_turn (set_running interrupted_turn) opened.db);
})

resumed-ok : resume_turn clock "s1" opened ≡ ok ("t1", resumed)
unfolding resume_turn resumed session turn lookup
resumed-ok = refl

recovered-own : (t : StoredTurn) → turn "t1" opened.db ≡ ok t → t.result.id ≡ "t1"
unfolding turn recover_turns append is_terminal save_turn
recovered-own t found =
    let same : interrupted_turn ≡ t = ok-injective found in ap (λ u. u.result.id) (sym same)

resume_turn_lem_example :
    (t : StoredTurn) × (turn "t1" opened.db ≡ ok t)
    × (t.session_id ≡ "s1")
    × (opt_eq t.result.error (some interrupted_error) ≡ true)
    × (lookup "s1" opened.active ≡ none)
    × ((s : StoredSession) × (session "s1" opened.db ≡ ok s) × (get_last? s.turn_ids ≡ some "t1"))
    × (turn "t1" resumed.db ≡ ok (set_running t))
    × (log "t1" resumed.db ≡ log "t1" opened.db ++ run_resumed "s1" ∷ [])
    × (lookup "s1" resumed.active ≡ some "t1")
    × (resume_turn clock "s1" resumed ≡ err active_turn)
resume_turn_lem_example =
    resume_turn_lem clock "s1" "t1" opened resumed
      (recover_turns-IsLog late clock store store-IsLog) recovered-own resumed-ok

abbrev reopened : Runtime
reopened = record { db = Samples.ended_store; closing = false; active = [] }

abbrev first_start : Result RuntimeError Started × Runtime
unfolding start_turn start_new is_request resolve_local_model accepted_input launch seed_turn
    transaction plan_turn open_conversation seed_workspace select_model store_seed session turn
    workspace lookup insert unique is_terminal save_session save_turn save_workspace
    save_accepted_input append stamp next_seq events attach_all attach check_workspace_limits
    sum_bytes continuation_messages all_messages event_messages outcomes text_take text_length
    id_chars
first_start = start_turn Samples.host "s1" Samples.follow_up Samples.fresh reopened

abbrev first_answer : Started
first_answer = record { run_id = "t2"; request_id = "r2" }

first_start-ok :
    start_turn Samples.host "s1" Samples.follow_up Samples.fresh reopened
    ≡ (ok first_answer, first_start.1)
unfolding first_start
first_start-ok = refl

abbrev later : Fresh
later = record { id = "t3"; request_id = "r10"; at = late }

start_turn-again_example :
    start_turn Samples.host "s1" Samples.follow_up later first_start.1
    ≡ (ok first_answer, first_start.1)
start_turn-again_example =
    start_turn-again Samples.host "s1" "r2" Samples.follow_up refl Samples.fresh later reopened
      first_start.1 first_answer first_start-ok

reopened-own : (s : StoredSession) → session "s1" reopened.db ≡ ok s → s.id ≡ "s1"
unfolding session lookup
reopened-own s found = let same : session_row ≡ s = ok-injective found in ap (λ x. x.id) (sym same)

start_turn-cases_example :
    ((e : RuntimeError) × (start_turn Samples.host "s1" Samples.follow_up Samples.fresh reopened
        ≡ (err e, reopened)))
    ⊎ ((rt' : Runtime) × (started : Started) × (start_turn Samples.host "s1" Samples.follow_up
            Samples.fresh reopened
          ≡ (ok started, rt'))
        × (false ≡ false)
        × (is_request Samples.follow_up ≡ true)
        × (Repeated "s1" Samples.follow_up reopened rt' started
            ⊎ Admitted Samples.host "s1" Samples.follow_up Samples.fresh reopened rt' started))
start_turn-cases_example =
    start_turn-cases Samples.host "s1" Samples.follow_up Samples.fresh reopened
      Samples.ended_store-IsLog reopened-own
