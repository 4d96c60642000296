-- ===== src/Runtime/Sandboxes.antt =====
-- What a metering call and the cleanup of a sandbox leave alone.
use nimplex.Prelude.{
  ℕ, String, ◌≡◌, refl, ◌∙◌, sym, ap, subst, inl, inr, false, Bool, Option, none, some, Bool-cases,
  str_eq, eq_iff, eq_refl, ok, >>=-eq-ok, ok-injective,
}
use nimplex.Prelude.Dict.{lookup, lookup-insert}
use nimplex.Store.Records.{StoredSession, Sandbox, SandboxUsageRecord, UsageReason}
use nimplex.Store.Tables.{Database, session, save_session, append_sandbox_usage}
use nimplex.Metering.Usage.{
  append_usage, note_usage, usage_record, add_to_summary, settled_entry, close_interval,
  settle_interval, settle_sandbox_usage, MeteredTime,
}
use nimplex.Metering.Ledger.{session-found}

-- Every session is stored under its identity.
pub record IsOwned (db : Database) : Type 0 where
  pub own : (k : String) (s : StoredSession) → lookup k db.sessions ≡ some s → s.id ≡ k

-- A change of one session's record that keeps its turns, in a store whose other tables of turns stay.
pub record Touches (id : String) (db db' : Database) : Type 0 where
  pub owned : IsOwned db'
  pub turns : db'.turns ≡ db.turns
  pub events : db'.events ≡ db.events
  pub workspaces : db'.workspaces ≡ db.workspaces
  pub others : (j : String) → str_eq id j ≡ false → lookup j db'.sessions ≡ lookup j db.sessions
  pub kept :
      (s : StoredSession)
      → lookup id db.sessions ≡ some s
      → (s' : StoredSession) × (lookup id db'.sessions ≡ some s') × (s'.turn_ids ≡ s.turn_ids)

pub Touches-refl : (id : String) (db : Database) → IsOwned db → Touches id db db
Touches-refl id db owned = record {
  owned = owned;
  turns = refl;
  events = refl;
  workspaces = refl;
  others = λ j ne. refl;
  kept = λ s found. (s, found, refl);
}

pub Touches-trans :
    (id : String) {a b c : Database} → Touches id a b → Touches id b c → Touches id a c
Touches-trans id f g = record {
  owned = g.owned;
  turns = g.turns ∙ f.turns;
  events = g.events ∙ f.events;
  workspaces = g.workspaces ∙ f.workspaces;
  others = λ j ne. g.others j ne ∙ f.others j ne;
  kept = λ s found.
      let (s1, found1, same1) = f.kept s found in
      let (s2, found2, same2) = g.kept s1 found1 in (s2, found2, same2 ∙ same1);
}

pub save_session-Touches :
    (id : String) (s u : StoredSession) (db : Database)
    → IsOwned db
    → lookup id db.sessions ≡ some s
    → u.id ≡ s.id
    → u.turn_ids ≡ s.turn_ids
    → Touches id db (save_session u db)
unfolding save_session
save_session-Touches id s u db owned found same_id same_turns =
    let at : u.id ≡ id = same_id ∙ owned.own id s found in
    record {
      owned = record {
        own = λ k v e.
            let e' = sym (lookup-insert u.id k u db.sessions) ∙ e in
            elim (Bool-cases (str_eq u.id k)) [
              | inl here ↦
                  let is_u : u ≡ v = cc (rw here at e') in
                  ap (λ x. x.id) (sym is_u) ∙ (eq_iff u.id k).0 here
              | inr away ↦ owned.own k v (rw away at e')
            ];
      };
      turns = refl;
      events = refl;
      workspaces = refl;
      others = λ j ne.
          let ne' : str_eq u.id j ≡ false = ap (λ k. str_eq k j) at ∙ ne in
          rw (lookup-insert u.id j u db.sessions, ne') refl;
      kept = λ v e.
          let is_s : s ≡ v = cc in
          (
            u,
            rw (lookup-insert u.id id u db.sessions, at, eq_refl id) refl,
            same_turns ∙ ap (λ x. x.turn_ids) is_s,
          );
    }

append_sandbox_usage-Touches :
    (id : String) (entry : MeteredTime) (db : Database)
    → IsOwned db
    → Touches id db (append_sandbox_usage id (usage_record entry) db)
unfolding append_sandbox_usage
append_sandbox_usage-Touches id entry db owned = record {
  owned = record { own = owned.own };
  turns = refl;
  events = refl;
  workspaces = refl;
  others = λ j ne. refl;
  kept = λ s found. (s, found, refl);
}

-- A save of a session that has just been read.
resave-Touches :
    (id : String) (s u : StoredSession) (db0 db db' : Database)
    → Touches id db0 db
    → session id db ≡ ok s
    → u.id ≡ s.id
    → u.turn_ids ≡ s.turn_ids
    → save_session u db ≡ db'
    → Touches id db0 db'
resave-Touches id s u db0 db db' before found same_id same_turns saved =
    subst (Touches id db0) saved (
      Touches-trans id before (
        save_session-Touches id s u db before.owned (session-found id db s found) same_id
          same_turns))

note-none :
    (now : ℕ → String) (turn_id : Option String) (r : SandboxUsageRecord) (db db' : Database)
    → turn_id ≡ none
    → note_usage now turn_id r db ≡ ok db'
    → db ≡ db'
unfolding note_usage
note-none now none r db db' no_turn h = ok-injective h
note-none now (some id) r db db' no_turn h = cc

module _ (now : ℕ → String) (id : String) where
  append_usage-Touches :
      (entry : MeteredTime) (db db' : Database)
      → entry.turn_id ≡ none
      → IsOwned db
      → append_usage now id entry db ≡ ok db'
      → Touches id db db'
  unfolding append_usage note_usage
  append_usage-Touches entry db db' no_turn owned h =
      let r = usage_record entry in
      let (db1, noted, h1) =
        >>=-eq-ok (note_usage now entry.turn_id r (append_sandbox_usage id r db)) _ h in
      let (s, found, h2) = >>=-eq-ok (session id db1) _ h1 in
      let same : append_sandbox_usage id r db ≡ db1 =
        note-none now entry.turn_id r _ db1 no_turn noted in
      resave-Touches id s (record s { usage_summary = some (add_to_summary s.usage_summary r) }) db
        db1 db' (subst (Touches id db) same (append_sandbox_usage-Touches id entry db owned)) found
        refl refl (ok-injective h2)

  module _ (number_value : String → ℕ) (reason : UsageReason) (at : ℕ) (uncertain : Bool) where
    settle_interval-Touches :
        (s : StoredSession) (since : Option ℕ) (provider : Option Sandbox) (db db' : Database)
        → IsOwned db
        → settle_interval number_value now id s since provider reason none at uncertain db ≡ ok db'
        → Touches id db db'
    unfolding settle_interval
    settle_interval-Touches s (some since) (some provider) db db' owned h =
        let entry = settled_entry number_value now s since provider reason none at uncertain in
        let (db1, appended, h1) = >>=-eq-ok (append_usage now id entry db) _ h in
        let (u, found, h2) = >>=-eq-ok (session id db1) _ h1 in
        resave-Touches id u (close_interval u) db db1 db'
          (append_usage-Touches entry db db1 refl owned appended) found refl refl (ok-injective h2)
    settle_interval-Touches s none provider db db' owned h =
        subst (Touches id db) (ok-injective h) (Touches-refl id db owned)
    settle_interval-Touches s (some since) none db db' owned h =
        subst (Touches id db) (ok-injective h) (Touches-refl id db owned)

    pub settle_sandbox_usage-Touches :
        (db db' : Database)
        → IsOwned db
        → settle_sandbox_usage number_value now id reason none at uncertain db ≡ ok db'
        → Touches id db db'
    unfolding settle_sandbox_usage
    settle_sandbox_usage-Touches db db' owned h =
        let (s, found, h1) = >>=-eq-ok (session id db) _ h in
        settle_interval-Touches s s.running_since s.sandbox_provider db db' owned h1
