-- ===== src/Runtime/Finish.antt =====
-- A turn ends once, and only an interrupted turn is resumed.
use nimplex.Prelude.{
  ℕ, String, ◌≡◌, refl, ◌∙◌, ap, sym, and-eq-true, inl, inr, Bool, true, false, not, ◌&&◌, Option,
  some, [], ◌∷◌, ◌++◌, get_last?, Bool-cases, str_eq, opt_eq, eq_refl, ok, guard, guard-eq-ok,
  or_throw, or_throw-eq-ok, >>=-eq-ok, ok-injective,
}
use nimplex.Prelude.Dict.{lookup-insert}
use nimplex.Status.{RunStatus, is_terminal}
use nimplex.Store.Records.{
  StoredTurn, StoredSession, runtime_closed, active_turn, no_interrupted_turn, not_interrupted,
  run_finished, run_resumed,
}
use nimplex.Store.Tables.{Database, session, turn, save_turn, append, transaction}
use nimplex.Store.Events.{IsLog, log, log-append, log-save_turn, save_turn-IsLog, turns-append}
use nimplex.Runtime.Lifecycle.{
  interrupted_error, end_turn, finish_turn, finish_in, finish, Runtime, has_active, set_running,
  launch, resume_turn,
}

module _ (at : String) (now : ℕ → String) (id : String) where
  finish-turn :
      (status : RunStatus) (error : Option String) (db : Database) {t : StoredTurn}
      → turn id db ≡ ok t
      → finish at now false id status error db ≡ (ok tt, finish_turn at now id status error t db)
  unfolding finish finish_in transaction
  finish-turn status error db found = rw found

  finish_turn-ended :
      (status : RunStatus) (error : Option String) (t : StoredTurn) (db : Database)
      → is_terminal t.result.status ≡ true
      → finish_turn at now id status error t db ≡ db
  unfolding finish_turn
  finish_turn-ended status error t db ended = rw ended

  turn-end_turn :
      (status : RunStatus) (error : Option String) (db : Database) (t : StoredTurn)
      → t.result.id ≡ id
      → is_terminal t.result.status ≡ false
      → turn id (finish_turn at now id status error t db) ≡ ok (end_turn status error at t)
  unfolding finish_turn
  turn-end_turn status error db t own live = rw live (
      unfold turn in
      rw (turns-append now id) (
        unfold save_turn in
        rw (lookup-insert t.result.id id (end_turn status error at t) db.turns, own, eq_refl id)))

  -- In an open store, `finish` of a live turn, stored under its identity, gives it the status, the
  -- error and a time of completion, and adds one event to its log where the log has no gaps;
  -- of an ended turn it changes nothing.
  pub finish_lem :
      (status : RunStatus) (error : Option String) (db : Database) {t : StoredTurn}
      → IsLog db
      → t.result.id ≡ id
      → turn id db ≡ ok t
      → let (r, db') = finish at now false id status error db in
        (r ≡ ok tt)
        × (is_terminal t.result.status ≡ true → db' ≡ db)
        × (is_terminal t.result.status ≡ false
            → (turn id db' ≡ ok (end_turn status error at t))
              × (log id db' ≡ log id db ++ run_finished status error ∷ []))
  finish_lem status error db {t} dense own found = rw (finish-turn status error db found) (
    refl,
    finish_turn-ended status error t db,
    λ live. (
      turn-end_turn status error db t own live,
      unfold finish_turn in
          rw live (
            (log-append now id (run_finished status error ∷ [])
              (save_turn (end_turn status error at t) db)
              (save_turn-IsLog (end_turn status error at t) db dense)).1
            ∙ ap (λ l. l ++ run_finished status error ∷ [])
                (log-save_turn (end_turn status error at t) db id)),
    ),
  )

  -- The first end of a turn stands: once a turn stored under its identity has been given an end
  -- status, finishing it again with another outcome changes nothing, in an open store.
  pub finish-finish :
      (first second : RunStatus) (error reason : Option String) (db : Database) {t : StoredTurn}
      → t.result.id ≡ id
      → turn id db ≡ ok t
      → is_terminal first ≡ true
      → finish at now false id second reason (finish at now false id first error db).1
        ≡ (ok tt, (finish at now false id first error db).1)
  finish-finish first second error reason db {t} own found final =
      rw (finish-turn first error db found) (elim (Bool-cases (is_terminal t.result.status)) [
        | inl ended ↦
            rw (finish_turn-ended first error t db ended, finish-turn second reason db found)
              (rw (finish_turn-ended second reason t db ended))
        | inr live ↦
            let after = finish_turn at now id first error t db in
            finish-turn second reason after (turn-end_turn first error db t own live)
            ∙ ap (λ db'. (ok tt, db'))
                (finish_turn-ended second reason (end_turn first error at t) after final)
      ])

-- What `resumeTurn` leaves when it returns.
pub record Resumed (now : ℕ → String) (session_id id : String) (rt rt' : Runtime) : Type 0 where
  pub was_open : rt.closing ≡ false
  pub was_idle : has_active session_id rt ≡ false
  pub session_row :
      (s : StoredSession) × (session session_id rt.db ≡ ok s) × (get_last? s.turn_ids ≡ some id)
  pub before : StoredTurn
  pub found : turn id rt.db ≡ ok before
  pub owned : str_eq before.session_id session_id ≡ true
  pub interrupted : opt_eq before.result.error (some interrupted_error) ≡ true
  pub next :
      rt'
      ≡ launch (set_running before) (record rt {
        db = append now id (run_resumed session_id ∷ []) (save_turn (set_running before) rt.db);
      })

not-eq-true : (b : Bool) → not b ≡ true → b ≡ false
not-eq-true true h = cc
not-eq-true false h = refl

pub resume_turn-Resumed :
    (now : ℕ → String) (session_id id : String) (rt rt' : Runtime)
    → resume_turn now session_id rt ≡ ok (id, rt')
    → Resumed now session_id id rt rt'
unfolding resume_turn
resume_turn-Resumed now session_id id rt rt' h =
    let (_, open_guard, h1) = >>=-eq-ok (guard (not rt.closing) runtime_closed) _ h in
    let (_, idle_guard, h2) = >>=-eq-ok (guard (not (has_active session_id rt)) active_turn) _ h1 in
    let (s, row, h3) = >>=-eq-ok (session session_id rt.db) _ h2 in
    let (last, last_found, h4) =
      >>=-eq-ok (or_throw (get_last? s.turn_ids) no_interrupted_turn) _ h3 in
    let (t, found, h5) = >>=-eq-ok (turn last rt.db) _ h4 in
    let allowed =
      str_eq t.session_id session_id && opt_eq t.result.error (some interrupted_error) in
    let (_, allowed_guard, h6) = >>=-eq-ok (guard allowed not_interrupted) _ h5 in
    let both : allowed ≡ true = guard-eq-ok allowed not_interrupted allowed_guard in
    let pair = ok-injective h6 in
    let same : last ≡ id = ap (λ r. r.0) pair in
    rw (← same) (record {
      was_open = not-eq-true rt.closing (guard-eq-ok _ runtime_closed open_guard);
      was_idle = not-eq-true _ (guard-eq-ok _ active_turn idle_guard);
      session_row = (s, row, or_throw-eq-ok _ no_interrupted_turn last_found);
      before = t;
      found = found;
      owned = (and-eq-true _ _ both).0;
      interrupted = (and-eq-true _ _ both).1;
      next = sym (ap (λ r. r.1) pair);
    })
