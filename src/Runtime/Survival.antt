-- ===== src/Runtime/Survival.antt =====
-- Closing keeps every session that has turns, and the sandbox of interrupted work.
use nimplex.Prelude.{
  ℕ, String, ◌≡◌, refl, ◌∙◌, sym, ap, subst, inl, inr, Bool, true, false, some, List, [], ◌∷◌, map,
  All, Bool-cases, str_eq, eq_iff, Result, ok, err, err-ne-ok,
}
use nimplex.Prelude.Dict.{lookup, lookup-erase}
use nimplex.Store.Records.{StoredSession, Sandbox, SandboxSessionState, RuntimeError}
use nimplex.Store.Tables.{Database, turn, is_nil}
use nimplex.Runtime.Sandboxes.{IsOwned, Touches}
use nimplex.Runtime.Closing.{
  resumable, is_untouched, close_session, then_next, close_all, close_sessions,
}
use nimplex.Runtime.Closed.{Without, Round, close_session-Round}

then_next-eq-ok :
    (r : Result RuntimeError (Unit {0}) × Database)
    (rest : Database → Result RuntimeError (Unit {0}) × Database) (db' : Database)
    → then_next r rest ≡ (ok tt, db')
    → (db1 : Database) × (r ≡ (ok tt, db1)) × (rest db1 ≡ (ok tt, db'))
then_next-eq-ok (err e, db) rest db' h = absurd (err-ne-ok (ap (λ p. p.0) h))
then_next-eq-ok (ok u, db) rest db' h = (db, refl, h)

module _ (deletes : Sandbox → SandboxSessionState → Bool) (number_value : String → ℕ)
    (now : ℕ → String) (at : ℕ) (id : String) (s : StoredSession) (start : Database) where
  -- A session of the starting store that is still there with its turns, as it was where it is resumed
  -- later, in a store with the same turns, logs and workspaces.
  pub record Survives (db : Database) : Type 0 where
    pub owned : IsOwned db
    pub turns : db.turns ≡ start.turns
    pub events : db.events ≡ start.events
    pub workspaces : db.workspaces ≡ start.workspaces
    pub row : StoredSession
    pub stored : lookup id db.sessions ≡ some row
    pub same_turns : row.turn_ids ≡ s.turn_ids
    pub untouched : resumable s start ≡ ok true → row ≡ s

  resumable-turns : (db : Database) → db.turns ≡ start.turns → resumable s db ≡ resumable s start
  unfolding resumable turn
  resumable-turns db same = ap (λ turns. resumable s (record db { turns = turns })) same

  used : is_nil s.turn_ids ≡ false → is_untouched s ≡ false
  used h = rw h refl

  Without-Survives :
      (u : StoredSession) (db db' : Database)
      → str_eq u.id id ≡ false
      → Without deletes number_value now at u.id db db'
      → Survives db
      → Survives db'
  Without-Survives u db db' away without v =
      let erased = ap (λ d. d.sessions) without in
      record {
        owned = record {
          own = λ k w found.
              let found' =
                sym (lookup-erase u.id k db.sessions) ∙ sym (ap (lookup k) erased) ∙ found in
              elim (Bool-cases (str_eq u.id k)) [
                | inl gone ↦ cc (rw gone at found')
                | inr there ↦ v.owned.own k w (rw there at found')
              ];
        };
        turns = ap (λ d. d.turns) without ∙ v.turns;
        events = ap (λ d. d.events) without ∙ v.events;
        workspaces = ap (λ d. d.workspaces) without ∙ v.workspaces;
        row = v.row;
        stored = ap (lookup id) erased ∙ lookup-erase u.id id db.sessions ∙ rw away v.stored;
        same_turns = v.same_turns;
        untouched = v.untouched;
      }

  elsewhere-Survives :
      (u : StoredSession) (db db' : Database)
      → str_eq u.id id ≡ false
      → Touches u.id db db'
      → Survives db
      → Survives db'
  elsewhere-Survives u db db' away touch v = record {
    owned = touch.owned;
    turns = touch.turns ∙ v.turns;
    events = touch.events ∙ v.events;
    workspaces = touch.workspaces ∙ v.workspaces;
    row = v.row;
    stored = touch.others id away ∙ v.stored;
    same_turns = v.same_turns;
    untouched = v.untouched;
  }

  own-Survives :
      (db db' : Database)
      → resumable s db ≡ ok false
      → Touches id db db'
      → Survives db
      → Survives db'
  own-Survives db db' over touch v =
      let (row, stored, same) = touch.kept v.row v.stored in
      record {
        owned = touch.owned;
        turns = touch.turns ∙ v.turns;
        events = touch.events ∙ v.events;
        workspaces = touch.workspaces ∙ v.workspaces;
        row = row;
        stored = stored;
        same_turns = same ∙ v.same_turns;
        untouched =
            λ resumes. let same_answer = sym over ∙ resumable-turns db v.turns ∙ resumes in cc;
      }

  Round-Survives :
      (u : StoredSession) (db db' : Database)
      → s.id ≡ id
      → is_nil s.turn_ids ≡ false
      → (u.id ≡ id → u ≡ s)
      → Round deletes number_value now at u db db'
      → Survives db
      → Survives db'
  Round-Survives u db db' own has_turns only round v = elim (Bool-cases (str_eq u.id id)) [
    | inr away ↦ elim round [
      | inl (untouched, without) ↦ Without-Survives u db db' away without v
      | inr (inl (resumes, same)) ↦ subst Survives same v
      | inr (inr (over, touch)) ↦ elsewhere-Survives u db db' away touch v
    ]
    | inl here ↦
        let u_s = only ((eq_iff u.id id).0 here) in
        let round' = subst (λ x. Round deletes number_value now at x db db') u_s round in
        elim round' [
          | inl (untouched, without) ↦ let busy = used has_turns in cc
          | inr (inl (resumes, same)) ↦ subst Survives same v
          | inr (inr (over, touch)) ↦
              own-Survives db db' over (subst (λ k. Touches k db db') own touch) v
        ]
  ]

  close_all-Survives :
      (us : List StoredSession) (db db' : Database)
      → s.id ≡ id
      → is_nil s.turn_ids ≡ false
      → All (λ (u : StoredSession). u.id ≡ id → u ≡ s) us
      → close_all deletes number_value now at us db ≡ (ok tt, db')
      → Survives db
      → Survives db'
  unfolding close_all
  close_all-Survives [] db db' own has_turns only h v = subst Survives (ap (λ p. p.1) h) v
  close_all-Survives (u ∷ us) db db' own has_turns only h v =
      let (db1, first, rest) =
        then_next-eq-ok (close_session deletes number_value now at u db)
          (close_all deletes number_value now at us) db' h in
      let round = close_session-Round deletes number_value now at u db db1 v.owned first in
      close_all-Survives us db1 db' own has_turns only.1 rest
        (Round-Survives u db db1 own has_turns only.0 round v)

  -- Where every session is stored under its identity, and the session, which has turns, is the only one
  -- with its own: when the sessions are closed and nothing throws, the turns, the logs and the
  -- workspaces are as they were, and the session is still there with its turns; where it waits to be
  -- resumed, it is as it was, with its sandbox.
  pub close_sessions_lem :
      (db' : Database)
      → IsOwned start
      → lookup id start.sessions ≡ some s
      → is_nil s.turn_ids ≡ false
      → All (λ (u : StoredSession). u.id ≡ id → u ≡ s) (map (λ e. e.1) start.sessions)
      → close_sessions deletes number_value now at start ≡ (ok tt, db')
      → Survives db'
  unfolding close_sessions
  close_sessions_lem db' owned stored has_turns only h =
      close_all-Survives (map (λ e. e.1) start.sessions) start db' (owned.own id s stored) has_turns
        only h
        (record {
          owned = owned;
          turns = refl;
          events = refl;
          workspaces = refl;
          row = s;
          stored = stored;
          same_turns = refl;
          untouched = λ resumes. refl;
        })
