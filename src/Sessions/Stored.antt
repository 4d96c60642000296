-- ===== src/Sessions/Stored.antt =====
-- What the transaction of a seeded turn leaves in the store.
use nimplex.Prelude.{
  ℕ, String, ◌≡◌, refl, ◌∙◌, sym, ap, subst, inl, inr, false, some, List, [], ◌∷◌, ◌++◌, any,
  get_last?, Bool-cases, Result-cases, if◌then◌else◌, str_eq, eq_refl, ok, err, ok-injective,
  err-ne-ok,
}
use nimplex.Prelude.Dict.{lookup, insert, lookup-insert}
use nimplex.Status.{running}
use nimplex.Store.Records.{
  StartTurnRequest, StoredSession, StoredTurn, Workspace, RuntimeError, ExecutorEvent,
  input_accepted, run_started,
}
use nimplex.Store.Tables.{
  Database, transaction, settle, session, save_session, save_turn, save_workspace, is_input,
  save_accepted_input, append, events,
}
use nimplex.Store.Events.{IsLog, log, log-append, turns-append}
use nimplex.Sessions.Seeding.{
  SeedHost, Fresh, Seed, seeded_session, request_id_of, plan_turn, store_seed, seed_turn,
}
use nimplex.Sessions.Plan.{plan_turn-Planned, Attached}

-- the events of an accepted turn
abbrev pub opening : Seed → List ExecutorEvent
opening seed =
    input_accepted seed.input.session_id seed.input.request_id
    ∷ run_started seed.input.session_id
    ∷ []

-- The rows that the transaction writes, before the events.
abbrev pub with_seed : Seed → Database → Database
with_seed seed db = record db {
  sessions = insert seed.session.id seed.session db.sessions;
  turns = insert seed.turn.result.id seed.turn db.turns;
  workspaces = insert seed.turn.result.id seed.workspace db.workspaces;
  accepted_inputs = db.accepted_inputs ++ seed.input ∷ [];
}

store_seed-rows :
    (host : SeedHost) (seed : Seed) (db db' : Database) {t : StoredTurn}
    → store_seed host seed db ≡ ok (t, db')
    → (t ≡ seed.turn)
      × (db' ≡ append host.steps.now seed.turn.result.id (opening seed) (with_seed seed db))
unfolding store_seed save_accepted_input save_workspace save_turn save_session
store_seed-rows host seed db db' h =
    elim (Bool-cases
      (any (is_input seed.input.session_id seed.input.request_id) db.accepted_inputs)) [
        | inl used ↦ absurd (err-ne-ok (rw used at h))
        | inr new ↦
            let same = ok-injective (rw new at h) in
            (sym (ap (λ p. p.0) same), sym (ap (λ p. p.1) same))
      ]

sessions-append :
    (now : ℕ → String) (id : String) (es : List ExecutorEvent) (db : Database)
    → (append now id es db).sessions ≡ db.sessions
unfolding append
sessions-append now id es db = refl

workspaces-append :
    (now : ℕ → String) (id : String) (es : List ExecutorEvent) (db : Database)
    → (append now id es db).workspaces ≡ db.workspaces
unfolding append
workspaces-append now id es db = refl

log-with_seed : (seed : Seed) (db : Database) (j : String) → log j (with_seed seed db) ≡ log j db
unfolding events
log-with_seed seed db j = refl

IsLog-with_seed : (seed : Seed) (db : Database) → IsLog db → IsLog (with_seed seed db)
IsLog-with_seed seed db h = record { dense = h.dense }

session-inserted :
    (session_id : String) (now : ℕ → String) (id : String) (es : List ExecutorEvent) (seed : Seed)
    (db : Database)
    → seed.session.id ≡ session_id
    → session session_id (append now id es (with_seed seed db)) ≡ ok seed.session
unfolding session
session-inserted session_id now id es seed db own = rw (
  sessions-append now id es,
  lookup-insert seed.session.id session_id seed.session db.sessions,
  own,
  eq_refl session_id,
)

module _ (host : SeedHost) (session_id : String) (r : StartTurnRequest) (fresh : Fresh)
    (db db' : Database) where
  -- The new turn in the store: its row, its files, its log, and its session.
  pub record Seeded (t : StoredTurn) : Type 0 where
    pub row : StoredSession
    pub files : Workspace
    pub found : session session_id db ≡ ok row
    pub based : Attached host session_id r db (get_last? row.turn_ids) files
    pub own : t.result.id ≡ fresh.id
    pub live : t.result.status ≡ running
    pub turns :
        (j : String)
        → lookup j db'.turns ≡ (if str_eq fresh.id j then some t else lookup j db.turns)
    pub workspaces :
        (j : String)
        → lookup j db'.workspaces
          ≡ (if str_eq fresh.id j then some files else lookup j db.workspaces)
    pub after : StoredSession
    pub session_after : session session_id db' ≡ ok after
    pub listed : after.turn_ids ≡ row.turn_ids ++ (fresh.id ∷ [])
    pub dated : after.updated_at ≡ fresh.at
    pub same_place : after.cwd ≡ row.cwd
    pub same_engine : after.engine ≡ row.engine
    pub same_sandbox : after.sandbox_state ≡ row.sandbox_state
    pub dense : IsLog db'
    pub opened :
        log fresh.id db'
        ≡ log fresh.id db
          ++ (input_accepted session_id (request_id_of r fresh) ∷ run_started session_id ∷ [])
    pub others : (j : String) → str_eq fresh.id j ≡ false → log j db' ≡ log j db

  seed_turn-invalid :
      (e : RuntimeError)
      → plan_turn host session_id r fresh db ≡ err e
      → seed_turn host false session_id r fresh db ≡ (err e, db)
  unfolding seed_turn
  seed_turn-invalid e invalid = rw (invalid, seed_turn)

  seed_turn-planned :
      (seed : Seed)
      → plan_turn host session_id r fresh db ≡ ok seed
      → seed_turn host false session_id r fresh db ≡ settle db (store_seed host seed db)
  unfolding seed_turn transaction
  seed_turn-planned seed planned = rw (planned, seed_turn)

  pub stored-Seeded :
      (seed : Seed) (t : StoredTurn)
      → IsLog db
      → ((s : StoredSession) → session session_id db ≡ ok s → s.id ≡ session_id)
      → plan_turn host session_id r fresh db ≡ ok seed
      → store_seed host seed db ≡ ok (t, db')
      → Seeded t
  stored-Seeded seed t h keyed planned stored =
      let p = plan_turn-Planned host session_id r db fresh seed planned in
      let (same, rows) = store_seed-rows host seed db db' stored in
      let now = host.steps.now in
      let id = seed.turn.result.id in
      let grown =
        log-append now id (opening seed) (with_seed seed db) (IsLog-with_seed seed db h) in
      let own : id ≡ fresh.id = ap (λ (x : Seed). x.turn.result.id) p.new in
      let session_id' : seed.session.id ≡ session_id =
        ap (λ (x : Seed). x.session.id) p.new ∙ keyed p.row p.opened.found in
      let longer : log id db' ≡ log id db ++ opening seed =
        ap (log id) rows ∙ grown.1 ∙ ap (λ l. l ++ opening seed) (log-with_seed seed db id) in
      let others : (j : String) → str_eq id j ≡ false → log j db' ≡ log j db =
        λ j ne. ap (log j) rows ∙ grown.2 j ne ∙ log-with_seed seed db j in
      record {
        row = p.row;
        files = seed.workspace;
        found = p.opened.found;
        based = p.files;
        own = ap (λ (x : StoredTurn). x.result.id) same ∙ own;
        live =
            ap (λ (x : StoredTurn). x.result.status) same
            ∙ ap (λ (x : Seed). x.turn.result.status) p.new;
        turns = λ j.
            ap (λ d. lookup j d.turns) rows
            ∙ ap (lookup j) (turns-append now id (opening seed) (with_seed seed db))
            ∙ lookup-insert id j seed.turn db.turns
            ∙ ap (λ i. if str_eq i j then some seed.turn else lookup j db.turns) own
            ∙ ap (λ x. if str_eq fresh.id j then some x else lookup j db.turns) (sym same);
        workspaces = λ j.
            ap (λ d. lookup j d.workspaces) rows
            ∙ ap (lookup j) (workspaces-append now id (opening seed) (with_seed seed db))
            ∙ lookup-insert id j seed.workspace db.workspaces
            ∙ ap (λ i. if str_eq i j then some seed.workspace else lookup j db.workspaces) own;
        after = seeded_session r fresh p.row;
        listed = refl;
        dated = refl;
        same_place = refl;
        same_engine = refl;
        same_sandbox = refl;
        session_after =
            ap (session session_id) rows
            ∙ session-inserted session_id now id (opening seed) seed db session_id'
            ∙ ap (λ (x : Seed). ok x.session) p.new;
        dense = subst IsLog (sym rows) grown.0;
        opened =
            ap (λ i. log i db') (sym own)
            ∙ longer
            ∙ ap (λ i. log i db ++ opening seed) own
            ∙ ap (λ (x : Seed). log fresh.id db ++ opening x) p.new;
        others = λ j ne. others j (ap (λ i. str_eq i j) own ∙ ne);
      }

  -- Where the log has no gaps and the session is stored under its identity: seeding that returns has
  -- stored the new running turn and its files, its parent's with the attachments, under the new
  -- identity, has added the turn at the end of the session, has logged the acceptance and the start
  -- and has changed no other turn, files or log; seeding that throws has changed nothing.
  pub seed_turn_lem :
      IsLog db
      → ((s : StoredSession) → session session_id db ≡ ok s → s.id ≡ session_id)
      → ((t : StoredTurn) → seed_turn host false session_id r fresh db ≡ (ok t, db') → Seeded t)
        × ((e : RuntimeError)
            → seed_turn host false session_id r fresh db ≡ (err e, db')
            → db' ≡ db)
  seed_turn_lem h keyed = elim (Result-cases (plan_turn host session_id r fresh db)) [
    | inl (e, invalid) ↦
        let thrown = seed_turn-invalid e invalid in
        (
          λ t eq. absurd (err-ne-ok (ap (λ p. p.0) (sym thrown ∙ eq))),
          λ x eq. ap (λ p. p.1) (sym eq ∙ thrown),
        )
    | inr (seed, planned) ↦
        let settled = seed_turn-planned seed planned in
        elim (Result-cases (store_seed host seed db)) [
          | inl (e, failed) ↦
              let thrown = settled ∙ ap (settle db) failed in
              (
                λ t eq. absurd (err-ne-ok (ap (λ p. p.0) (sym thrown ∙ eq))),
                λ x eq. ap (λ p. p.1) (sym eq ∙ thrown),
              )
          | inr ((t1, d1), stored) ↦
              let returned = settled ∙ ap (settle db) stored in
              (
                λ t eq.
                    let same = sym returned ∙ eq in
                    let same_turn : t1 ≡ t = ok-injective (ap (λ p. p.0) same) in
                    let same_db : d1 ≡ db' = ap (λ p. p.1) same in
                    stored-Seeded seed t h keyed planned
                      (stored ∙ ap (λ x. ok (x, d1)) same_turn ∙ ap (λ x. ok (t, x)) same_db),
                λ x eq. absurd (err-ne-ok (ap (λ p. p.0) (sym eq ∙ returned))),
              )
        ]
  ]
