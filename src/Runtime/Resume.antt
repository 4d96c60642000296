-- ===== src/Runtime/Resume.antt =====
-- What resuming does, and that recovery leaves every live last turn fit to be resumed.
use nimplex.Prelude.{
  ℕ, String, ◌≡◌, refl, ◌∙◌, ap, inl, inr, true, false, none, some, List, [], ◌∷◌, ◌++◌, get_last?,
  map, Bool-cases, opt_eq, eq_iff, eq_refl, ok, err, arith,
}
use mathlib.Core.Option
use nimplex.Prelude.Dict.{lookup, lookup-insert}
use nimplex.Status.{failed, is_terminal}
use nimplex.Store.Records.{
  StoredTurn, StoredSession, ExecutorEvent, active_turn, run_resumed, run_interrupted,
}
use nimplex.Store.Tables.{Database, session, turn, save_turn, append}
use nimplex.Store.Events.{IsLog, log, log-append, log-save_turn, save_turn-IsLog, turns-append}
use nimplex.Runtime.Lifecycle.{
  interrupted_error, end_turn, Runtime, has_active, set_running, launch, resume_turn, recover_turns,
  interrupt_turns, interrupt_turn,
}
use nimplex.Runtime.Recovery.{IsKeyed, interrupted, lookup-recover_turns}
use nimplex.Runtime.Finish.{resume_turn-Resumed}

idle :
    (session_id : String) (rt : Runtime)
    → has_active session_id rt ≡ false
    → lookup session_id rt.active ≡ none
idle session_id rt h = ground arith

resume_turn-busy :
    (now : ℕ → String) (session_id id : String) (rt : Runtime)
    → rt.closing ≡ false
    → lookup session_id rt.active ≡ some id
    → resume_turn now session_id rt ≡ err active_turn
unfolding resume_turn
resume_turn-busy now session_id id rt still_open busy =
    let active : has_active session_id rt ≡ true = ground arith in simp still_open (rw active)

turn-append_save :
    (now : ℕ → String) (id : String) (es : List ExecutorEvent) (u : StoredTurn) (db : Database)
    → u.result.id ≡ id
    → turn id (append now id es (save_turn u db)) ≡ ok u
turn-append_save now id es u db own =
    unfold turn in
    rw (turns-append now id)
      (unfold save_turn in rw (lookup-insert u.result.id id u db.turns, own, eq_refl id))

module _ (now : ℕ → String) (session_id id : String) (rt rt' : Runtime) where
  -- A resumption that returns `id`, where turns are stored under their identity and the log has no
  -- gaps, found an idle session whose last turn is `id`, owned by it and interrupted; afterwards
  -- the turn is running with no error, its log has one event more, the session has it as its
  -- active turn, and resuming the session again throws.
  pub resume_turn_lem :
      IsLog rt.db
      → ((t : StoredTurn) → turn id rt.db ≡ ok t → (t.result.id ≡ id))
      → resume_turn now session_id rt ≡ ok (id, rt')
      → (t : StoredTurn) × (turn id rt.db ≡ ok t)
        × (t.session_id ≡ session_id)
        × (opt_eq t.result.error (some interrupted_error) ≡ true)
        × (lookup session_id rt.active ≡ none)
        × ((s : StoredSession) × (session session_id rt.db ≡ ok s)
            × (get_last? s.turn_ids ≡ some id))
        × (turn id rt'.db ≡ ok (set_running t))
        × (log id rt'.db ≡ log id rt.db ++ run_resumed session_id ∷ [])
        × (lookup session_id rt'.active ≡ some id)
        × (resume_turn now session_id rt' ≡ err active_turn)
  resume_turn_lem dense own h =
      let r = resume_turn-Resumed now session_id id rt rt' h in
      let t = r.before in
      let mine : t.result.id ≡ id = own t r.found in
      let ours : t.session_id ≡ session_id = (eq_iff t.session_id session_id).0 r.owned in
      let saved = save_turn (set_running t) rt.db in
      let active : lookup session_id rt'.active ≡ some id = rw r.next (
        unfold launch in
        rw (ours, mine, lookup-insert session_id session_id id rt.active, eq_refl session_id)) in
      let still_open : rt'.closing ≡ false = rw r.next (unfold launch in r.was_open) in
      (
        t,
        r.found,
        ours,
        r.interrupted,
        idle session_id rt r.was_idle,
        r.session_row,
        rw r.next (
            unfold launch in
            turn-append_save now id (run_resumed session_id ∷ []) (set_running t) rt.db mine),
        rw r.next (
            unfold launch in
            (log-append now id (run_resumed session_id ∷ []) saved
              (save_turn-IsLog (set_running t) rt.db dense)).1
            ∙ ap (λ l. l ++ run_resumed session_id ∷ []) (log-save_turn (set_running t) rt.db id)),
        active,
        resume_turn-busy now session_id id rt' still_open active,
      )

-- Recovery writes no session.
sessions-interrupt_turns :
    (at : String) (now : ℕ → String) (ts : List StoredTurn) (db : Database)
    → (interrupt_turns at now ts db).sessions ≡ db.sessions
unfolding interrupt_turns interrupt_turn append save_turn
sessions-interrupt_turns at now [] db = refl
sessions-interrupt_turns at now (t ∷ ts) db =
    sessions-interrupt_turns at now ts (interrupt_turn at now t db) ∙ ground arith

session-recover_turns :
    (at : String) (now : ℕ → String) (session_id : String) (db : Database)
    → session session_id (recover_turns at now db) ≡ session session_id db
unfolding session recover_turns
session-recover_turns at now session_id db = rw (sessions-interrupt_turns at now)

interrupt_turns-IsLog :
    (at : String) (now : ℕ → String) (ts : List StoredTurn) (db : Database)
    → IsLog db
    → IsLog (interrupt_turns at now ts db)
unfolding interrupt_turns
interrupt_turns-IsLog at now [] db h = h
interrupt_turns-IsLog at now (t ∷ ts) db h =
    interrupt_turns-IsLog at now ts (interrupt_turn at now t db) (
      unfold interrupt_turn in
      elim (Bool-cases (is_terminal t.result.status)) [
        | inl ended ↦ rw ended h
        | inr live ↦
            let t' = end_turn failed (some interrupted_error) at t in
            rw live
              (log-append now t.result.id (run_interrupted interrupted_error ∷ []) (save_turn t' db)
                (save_turn-IsLog t' db h)).0
      ])

-- Recovery leaves no gap in a log.
pub recover_turns-IsLog :
    (at : String) (now : ℕ → String) (db : Database) → IsLog db → IsLog (recover_turns at now db)
unfolding recover_turns
recover_turns-IsLog at now db h = interrupt_turns-IsLog at now (map (λ e. e.1) db.turns) db h

-- A resumption whose every test passes returns.
resume_turn-ok :
    (now : ℕ → String) (session_id id : String) (db : Database) (t : StoredTurn) (s : StoredSession)
    → session session_id db ≡ ok s
    → get_last? s.turn_ids ≡ some id
    → turn id db ≡ ok t
    → t.session_id ≡ session_id
    → t.result.error ≡ some interrupted_error
    → (rt' : Runtime) × (resume_turn now session_id
          (record { db = db; closing = false; active = [] })
        ≡ ok (id, rt'))
unfolding resume_turn lookup
resume_turn-ok now session_id id db t s row last found ours error =
    let db' = append now id (run_resumed session_id ∷ []) (save_turn (set_running t) db) in
    (
      launch (set_running t) (record { db = db'; closing = false; active = [] }),
      simp (row, last, found, ours, error, eq_refl),
    )

-- A live turn that is the last of an idle session is lost by no crash: where turns are stored under
-- their identities, once, a runtime that recovers the store can resume it at once.
pub resume_turn-recover_turns :
    (at : String) (now : ℕ → String) (session_id id : String) (db : Database) (t : StoredTurn)
    (s : StoredSession)
    → IsKeyed db.turns
    → lookup id db.turns ≡ some t
    → is_terminal t.result.status ≡ false
    → t.session_id ≡ session_id
    → session session_id db ≡ ok s
    → get_last? s.turn_ids ≡ some id
    → let rt : Runtime = record { db = recover_turns at now db; closing = false; active = [] } in
      (rt' : Runtime) × (resume_turn now session_id rt ≡ ok (id, rt'))
resume_turn-recover_turns at now session_id id db t s keyed found live ours row last =
    let db' = recover_turns at now db in
    let t' = end_turn failed (some interrupted_error) at t in
    let found' : lookup id db'.turns ≡ some t' =
      lookup-recover_turns at now db id keyed
      ∙ ap (Option.map (interrupted at now)) found
      ∙ rw live in
    let row' : session session_id db' ≡ ok s = session-recover_turns at now session_id db ∙ row in
    let found'' : turn id db' ≡ ok t' = unfold turn in rw found' in
    resume_turn-ok now session_id id db' t' s row' last found'' ours refl
