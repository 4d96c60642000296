-- ===== src/Sessions/Tests.antt =====
-- A second turn of a small session, with an attachment.
use nimplex.Prelude.{
  inl, inr, String, ◌≡◌, refl, sym, ap, false, List, [], ◌∷◌, ◌++◌, All, Result, ok, err,
  ok-injective,
}
use nimplex.Prelude.Texts.{text_take, encode}
use nimplex.Prelude.Dict.{lookup, insert, unique}
use nimplex.Status.{completed, is_terminal}
use nimplex.Storage.Records.{Json, text, object, array, member, end, cons, nil}
use nimplex.Store.Members.{get_member}
use nimplex.Store.Records.{
  StoredSession, StoredTurn, Workspace, ExecutorEvent, model_call, tool_result, message_continue,
  RuntimeError,
}
use nimplex.Store.Tables.{
  Database, session, turn, workspace, save_session, save_turn, save_workspace, save_accepted_input,
  append, stamp, next_seq, events, transaction,
}
use nimplex.Store.Samples.{config, turn_in, session_row, before_files}
use nimplex.Checkpoints.Steps.{check_workspace_limits, sum_bytes}
use nimplex.Sessions.Requests.{resolve_local_model}
use nimplex.Sessions.Attachments.{attach, attach_all, attached}
use nimplex.Sessions.Overlay.{overlaid, lookup-attach_all}
use nimplex.Sessions.Conversation.{
  continuation_messages, outcomes, event_messages, all_messages, keep_members, user_message,
}
use nimplex.Sessions.Whole.{IsWholeEvent, committed_messages, continuation_messages-committed}
use nimplex.Sessions.Seeding.{
  seed_turn, store_seed, plan_turn, open_conversation, seed_workspace, select_model,
}
use nimplex.Sessions.Stored.{Seeded, seed_turn_lem}
use nimplex.Sessions.Samples.{host, fresh, note, ended_store, ended_store-IsLog, follow_up, posix}

abbrev outcome : {A E : Type 0} → A → Result E A → A
outcome d (ok a) = a
outcome d (err e) = d

abbrev seeded_store : Database
unfolding seed_turn transaction plan_turn open_conversation seed_workspace select_model store_seed
    session turn workspace lookup insert unique is_terminal save_session save_turn save_workspace
    save_accepted_input append stamp next_seq events attach_all attach check_workspace_limits
    sum_bytes resolve_local_model continuation_messages all_messages event_messages outcomes
    text_take
seeded_store = (seed_turn host false "s1" follow_up fresh ended_store).1

abbrev seeded : StoredTurn
unfolding seeded_store
seeded = outcome (turn_in completed) (turn "t2" seeded_store)

seeded_store-ok : seed_turn host false "s1" follow_up fresh ended_store ≡ (ok seeded, seeded_store)
unfolding seeded_store seeded
seeded_store-ok = refl

session_row-own : (s : StoredSession) → session "s1" ended_store ≡ ok s → s.id ≡ "s1"
unfolding session lookup
session_row-own s found =
    let same : session_row ≡ s = ok-injective found in ap (λ x. x.id) (sym same)

seed_turn_lem_example :
    ((t : StoredTurn)
      → seed_turn host false "s1" follow_up fresh ended_store ≡ (ok t, seeded_store)
      → Seeded host "s1" follow_up fresh ended_store seeded_store t)
    × ((e : RuntimeError)
        → seed_turn host false "s1" follow_up fresh ended_store ≡ (err e, seeded_store)
        → seeded_store ≡ ended_store)
seed_turn_lem_example =
    seed_turn_lem host "s1" follow_up fresh ended_store seeded_store ended_store-IsLog
      session_row-own

-- the theorem's first part at the turn that was seeded
seeded_store-Seeded : Seeded host "s1" follow_up fresh ended_store seeded_store seeded
seeded_store-Seeded = seed_turn_lem_example.0 seeded seeded_store-ok

abbrev with_note : Workspace
unfolding attach_all attach
with_note = outcome before_files (attach_all posix (note ∷ []) before_files)

with_note-ok : attach_all posix (note ∷ []) before_files ≡ ok with_note
unfolding with_note
with_note-ok = refl

abbrev note_path : String
note_path = "/workspace/note.txt"

lookup-attach_all_example :
    (lookup note_path with_note.files
      ≡ overlaid
          (λ a. encode a.content)
          note_path
          (note ∷ [])
          (lookup note_path before_files.files))
    × (lookup note_path with_note.metadata
        ≡ overlaid (λ a. attached) note_path (note ∷ []) (lookup note_path before_files.metadata))
lookup-attach_all_example =
    lookup-attach_all posix (note ∷ []) before_files with_note note_path with_note-ok

-- a call with its result, and the answer
abbrev call_block : Json
call_block = object (member "type" (text "toolCall") (member "id" (text "call-1") end))

abbrev called : Json
called =
    object (member "role" (text "assistant") (member "content" (array (cons call_block nil)) end))

abbrev answered_log : List ExecutorEvent
answered_log =
    model_call (object (member "message" called end))
    ∷ tool_result "call-1" "bash" (text "ok") false
    ∷ message_continue "go on"
    ∷ []

answered_log-IsWholeEvent : All (IsWholeEvent host.is_nonzero answered_log) answered_log
unfolding outcomes keep_members get_member
answered_log-IsWholeEvent =
    ((called, refl, refl, (inr ("call-1", refl, inl refl), tt)), (tt, (tt, tt)))

continuation_messages-committed_example :
    continuation_messages host.is_nonzero config answered_log
    ≡ ok (config.prior_messages ++ (user_message config.input ∷ committed_messages answered_log))
continuation_messages-committed_example =
    continuation_messages-committed host.is_nonzero config answered_log answered_log-IsWholeEvent

-- the same log without the result: the message that only holds the call is dropped
unanswered :
    continuation_messages host.is_nonzero config
      (model_call (object (member "message" called end)) ∷ [])
    ≡ ok (user_message config.input ∷ [])
unfolding continuation_messages all_messages event_messages outcomes
unanswered = refl
