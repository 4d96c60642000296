-- ===== src/Metering/Ledger.antt =====
-- The running total of a session is the sum of its ledger.
use nimplex.Prelude.{
  ℕ, String, ◌≡◌, refl, ◌∙◌, sym, ap, inl, inr, Bool, true, false, Option, none, some, List, [],
  ◌∷◌, ◌++◌, map, filter, filter-append, append-nil, Bool-cases, if◌then◌else◌, str_eq, eq_iff,
  eq_refl, ok, >>=-eq-ok, ok-injective, or_throw-eq-ok,
}
use mathlib.Core.List.{map-append}
use nimplex.Prelude.Dict.{lookup, lookup-insert}
use nimplex.Status.{RunStatus, status_eq}
use nimplex.Store.Records.{SandboxUsageRecord, SandboxUsageSummary, StoredSession, sandbox_usage}
use nimplex.Store.Tables.{
  Database, UsageEntry, next_usage_seq, session, turn, save_session, append, append_sandbox_usage,
}
use nimplex.Metering.Usage.{add_to_summary, MeteredTime, usage_record, note_usage, append_usage}

-- the records of a session, in the order of their insertion
abbrev pub ledger_of : String → List UsageEntry → List SandboxUsageRecord
ledger_of id rows =
    map (λ u. u.record_data) (filter (λ (u : UsageEntry). str_eq u.session_id id) rows)

-- the sum of some records, on top of a total
unfoldable pub total_from :
    Option SandboxUsageSummary → List SandboxUsageRecord → Option SandboxUsageSummary
total_from summary [] = summary
total_from summary (r ∷ rs) = total_from (some (add_to_summary summary r)) rs

total_from-snoc :
    (summary : Option SandboxUsageSummary) (rs : List SandboxUsageRecord) (r : SandboxUsageRecord)
    → total_from summary (rs ++ r ∷ []) ≡ some (add_to_summary (total_from summary rs) r)
unfolding total_from
total_from-snoc summary [] r = refl
total_from-snoc summary (x ∷ rs) r = total_from-snoc (some (add_to_summary summary x)) rs r

-- A session that is found is stored under its identity, and its running total is the sum of its
-- ledger.
abbrev pub IsMetered : Database → Type 0
IsMetered db =
    (id : String) (s : StoredSession)
    → lookup id db.sessions ≡ some s
    → (s.id ≡ id) × (s.usage_summary ≡ total_from none (ledger_of id db.ledger))

-- Storing a session with its total as it was.
pub save_session-IsMetered :
    (db : Database) (id : String) (s u : StoredSession)
    → IsMetered db
    → lookup id db.sessions ≡ some s
    → u.id ≡ s.id
    → u.usage_summary ≡ s.usage_summary
    → IsMetered (save_session u db)
unfolding save_session
save_session-IsMetered db id s u h found same total j v e = elim (Bool-cases (str_eq u.id j)) [
  | inl own ↦
      let own' : u.id ≡ j = (eq_iff u.id j).0 own in
      let at_id = h id s found in
      let is_u : u ≡ v = cc (rw (lookup-insert u.id j u db.sessions, own) at e) in
      let id_j : id ≡ j = sym at_id.0 ∙ sym same ∙ own' in
      rw (← is_u) (own', total ∙ at_id.1 ∙ ap (λ k. total_from none (ledger_of k db.ledger)) id_j)
  | inr other ↦ h j v (rw (lookup-insert u.id j u db.sessions, other) at e)
]

note-rows :
    (now : ℕ → String) (id : String) (r : SandboxUsageRecord) (db : Database) (b : Bool)
    → let db' : Database = if b then append now id (sandbox_usage r ∷ []) db else db in
      (db'.sessions ≡ db.sessions) × (db'.ledger ≡ db.ledger)
unfolding append
note-rows now id r db true = (refl, refl)
note-rows now id r db false = (refl, refl)

-- An event about usage writes no session and no row of the ledger.
rows-note_usage :
    (now : ℕ → String) (turn_id : Option String) (r : SandboxUsageRecord) (db db' : Database)
    → note_usage now turn_id r db ≡ ok db'
    → (db'.sessions ≡ db.sessions) × (db'.ledger ≡ db.ledger)
unfolding note_usage
rows-note_usage now none r db db' e =
    let same : db ≡ db' = ok-injective e in rw (← same) (refl, refl)
rows-note_usage now (some id) r db db' e =
    let (t, found, e1) = >>=-eq-ok (turn id db) _ e in
    rw (← ok-injective e1) (note-rows now id r db (status_eq t.result.status RunStatus.running))

ledger_of-append_self :
    (id : String) (rows : List UsageEntry) (u : UsageEntry)
    → str_eq u.session_id id ≡ true
    → ledger_of id (rows ++ u ∷ []) ≡ ledger_of id rows ++ u.record_data ∷ []
ledger_of-append_self id rows u own =
    rw (filter-append (λ (v : UsageEntry). str_eq v.session_id id), own, map-append) refl

ledger_of-append_ne :
    (id : String) (rows : List UsageEntry) (u : UsageEntry)
    → str_eq u.session_id id ≡ false
    → ledger_of id (rows ++ u ∷ []) ≡ ledger_of id rows
ledger_of-append_ne id rows u other =
    rw (filter-append (λ (v : UsageEntry). str_eq v.session_id id), other, append-nil) refl

pub session-found :
    (id : String) (db : Database) (s : StoredSession)
    → session id db ≡ ok s
    → lookup id db.sessions ≡ some s
unfolding session
session-found id db s e = or_throw-eq-ok _ _ e

add-IsMetered :
    (entry : UsageEntry) (db db' : Database) (s : StoredSession)
    → IsMetered db
    → db'.sessions ≡ db.sessions
    → db'.ledger ≡ db.ledger ++ entry ∷ []
    → lookup entry.session_id db.sessions ≡ some s
    → IsMetered (
        save_session
          (record s { usage_summary = some (add_to_summary s.usage_summary entry.record_data) })
          db')
unfolding save_session
add-IsMetered entry db db' s h sessions ledger found j v e =
    let id = entry.session_id in
    let r = entry.record_data in
    let at_id = h id s found in
    let u : StoredSession = record s { usage_summary = some (add_to_summary s.usage_summary r) } in
    elim (Bool-cases (str_eq id j)) [
      | inl own ↦
          let same : id ≡ j = (eq_iff id j).0 own in
          let own' : str_eq s.id j ≡ true = rw at_id.0 own in
          let is_u : u ≡ v = cc (rw (lookup-insert s.id j u db'.sessions, own') at e) in
          let sum : u.usage_summary ≡ total_from none (ledger_of id db'.ledger) =
            ap (λ t. some (add_to_summary t r)) at_id.1
            ∙ sym (total_from-snoc none (ledger_of id db.ledger) r)
            ∙ ap (total_from none) (sym (ledger_of-append_self id db.ledger entry (eq_refl id)))
            ∙ ap (λ rows. total_from none (ledger_of id rows)) (sym ledger) in
          rw (← is_u)
            (at_id.0 ∙ same, sum ∙ ap (λ k. total_from none (ledger_of k db'.ledger)) same)
      | inr other ↦
          let other' : str_eq s.id j ≡ false = rw at_id.0 other in
          let e' : lookup j db.sessions ≡ some v =
            ap (lookup j) (sym sessions) ∙ rw (lookup-insert s.id j u db'.sessions, other') at e in
          let at_j = h j v e' in
          (
            at_j.0,
            at_j.1
                ∙ ap (total_from none) (sym (ledger_of-append_ne j db.ledger entry other))
                ∙ ap (λ rows. total_from none (ledger_of j rows)) (sym ledger),
          )
    ]

pub append_usage-IsMetered :
    (now : ℕ → String) (session_id : String) (entry : MeteredTime) (db db' : Database)
    → IsMetered db
    → append_usage now session_id entry db ≡ ok db'
    → IsMetered db'
unfolding append_usage append_sandbox_usage
append_usage-IsMetered now session_id entry db db' h e =
    let r = usage_record entry in
    let row : UsageEntry = record {
      session_id = session_id;
      seq = next_usage_seq session_id db.ledger;
      record_data = r;
    } in
    let (noted, noted_eq, e1) =
      >>=-eq-ok (note_usage now entry.turn_id r (append_sandbox_usage session_id r db)) _ e in
    let (s, found, e2) = >>=-eq-ok (session session_id noted) _ e1 in
    let (sessions, ledger) =
      rows-note_usage now entry.turn_id r (append_sandbox_usage session_id r db) noted noted_eq in
    let found' : lookup session_id db.sessions ≡ some s =
      ap (lookup session_id) (sym sessions) ∙ session-found session_id noted s found in
    rw (← ok-injective e2) (add-IsMetered row db noted s h sessions ledger found')

pub ledger-append_usage :
    (now : ℕ → String) (session_id : String) (entry : MeteredTime) (db db' : Database)
    → append_usage now session_id entry db ≡ ok db'
    → ledger_of session_id db'.ledger ≡ ledger_of session_id db.ledger ++ usage_record entry ∷ []
unfolding append_usage append_sandbox_usage save_session
ledger-append_usage now session_id entry db db' e =
    let r = usage_record entry in
    let row : UsageEntry = record {
      session_id = session_id;
      seq = next_usage_seq session_id db.ledger;
      record_data = r;
    } in
    let (noted, noted_eq, e1) =
      >>=-eq-ok (note_usage now entry.turn_id r (append_sandbox_usage session_id r db)) _ e in
    let (s, found, e2) = >>=-eq-ok (session session_id noted) _ e1 in
    let (sessions, ledger) =
      rows-note_usage now entry.turn_id r (append_sandbox_usage session_id r db) noted noted_eq in
    rw (← ok-injective e2) (
      ap (ledger_of session_id) ledger
      ∙ ledger_of-append_self session_id db.ledger row (eq_refl session_id))
