-- ===== src/Sessions/Inheritance.antt =====
-- What a client sees of a branch: the first turns of its source.
use nimplex.Prelude.{
  ℕ, String, ◌≡◌, refl, ◌∙◌, sym, ap, Option, none, some, List, [], ◌∷◌, ◌++◌, eq_refl, ok, ◌>>=◌,
  >>=-eq-ok, ok-injective,
}
use nimplex.Prelude.Dict.{lookup-insert}
use nimplex.Storage.Ports.{Platform, PiSession}
use nimplex.Store.Records.{StoredSession}
use nimplex.Store.Tables.{Database, session, turn, events, save_session}
use nimplex.Sessions.Branching.{Stores, selected_turn, fork_session}
use nimplex.Sessions.Forking.{Inherits, fork_session_lem}
use nimplex.Sessions.Snapshots.{
  SessionTurn, SessionSnapshot, public_events, session_turn, session_turns, snapshot_of,
  get_session,
}

session_turns-save_session :
    (ids : List String) (s : StoredSession) (db : Database)
    → session_turns ids (save_session s db) ≡ session_turns ids db
unfolding session_turns save_session turn public_events events
session_turns-save_session [] s db = refl
session_turns-save_session (id ∷ ids) s db =
    ap (λ r. session_turn id db >>= (λ t. r >>= (λ rest. ok (t ∷ rest))))
      (session_turns-save_session ids s db)

session_turns-prefix :
    (ids others : List String) (db : Database) (turns : List SessionTurn)
    → session_turns (ids ++ others) db ≡ ok turns
    → (first : List SessionTurn) × (rest : List SessionTurn) × (session_turns ids db ≡ ok first)
      × (first ++ rest ≡ turns)
unfolding session_turns
session_turns-prefix [] others db turns h = ([], turns, refl, refl)
session_turns-prefix (id ∷ ids) others db turns h =
    let (t, found, h1) = >>=-eq-ok (session_turn id db) _ h in
    let (ts, read, h2) = >>=-eq-ok (session_turns (ids ++ others) db) _ h1 in
    let (first, rest, here, whole) = session_turns-prefix ids others db ts read in
    (t ∷ first, rest, rw (found, here) refl, ap (λ xs. t ∷ xs) whole ∙ ok-injective h2)

Inherits-prefix :
    (selected : Option String) (ids turn_ids : List String) (db : Database)
    → Inherits selected ids turn_ids db
    → (rest : List String) × (turn_ids ++ rest ≡ ids)
Inherits-prefix none ids turn_ids db h = (ids, ap (λ xs. xs ++ ids) h)
Inherits-prefix (some selected) ids turn_ids db (t, rest, whole, _, _, _, _) = (rest, whole)

session-saved :
    (branch_id : String) (branch : StoredSession) (db : Database)
    → branch.id ≡ branch_id
    → session branch_id (save_session branch db) ≡ ok branch
unfolding session save_session
session-saved branch_id branch db own =
    rw (lookup-insert branch.id branch_id branch db.sessions, own, eq_refl branch_id)

-- Where the source can be shown, a fork that returns has left a branch that can be shown, and the
-- turns that it shows, with their results and events, are the first ones of its source.
pub fork_session-get_session :
    (js : Platform) (pi : PiSession) (at_tip : String → pi.ForkOptions) (fuel : ℕ) (id : String)
    (turn_id : Option String) (branch_id at : String) (now : ℕ) (commit_id : String)
    (st st' : Stores js pi) (shown : SessionSnapshot)
    → get_session id st.db ≡ ok shown
    → fork_session js pi at_tip fuel id turn_id branch_id at now commit_id st ≡ (ok branch_id, st')
    → (branch : SessionSnapshot) × (rest : List SessionTurn) × (get_session branch_id st'.db
        ≡ ok branch)
      × (branch.turns ++ rest ≡ shown.turns)
unfolding get_session
fork_session-get_session js pi at_tip fuel id turn_id branch_id at now commit_id st st' shown seen
      forked =
    let law = fork_session_lem js pi at_tip fuel id turn_id branch_id at now commit_id st st' in
    let (_, b) = law.0 branch_id forked in
    let (source, found, seen1) = >>=-eq-ok (session id st.db) _ seen in
    let same : source ≡ b.source = ok-injective (sym found ∙ b.found) in
    let (turns, read, seen2) = >>=-eq-ok (session_turns source.turn_ids st.db) _ seen1 in
    let (others, ids) =
      Inherits-prefix (selected_turn turn_id b.source.turn_ids) b.source.turn_ids b.branch.turn_ids
        st.db b.inherits in
    let whole : b.branch.turn_ids ++ others ≡ source.turn_ids =
      ids ∙ ap (λ s. s.turn_ids) (sym same) in
    let read' : session_turns (b.branch.turn_ids ++ others) st.db ≡ ok turns =
      ap (λ xs. session_turns xs st.db) whole ∙ read in
    let (first, rest, here, parts) =
      session_turns-prefix b.branch.turn_ids others st.db turns read' in
    let stored = session-saved branch_id b.branch st.db b.own in
    let shows = session_turns-save_session b.branch.turn_ids b.branch st.db ∙ here in
    (
      snapshot_of branch_id b.branch first,
      rest,
      ap (get_session branch_id) b.left ∙ rw (stored, shows) refl,
      parts ∙ ap (λ s. s.turns) (ok-injective seen2),
    )
