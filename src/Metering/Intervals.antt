-- ===== src/Metering/Intervals.antt =====
-- Every way that the runtime meters a sandbox keeps the running totals equal to the ledger.
use nimplex.Prelude.{
  ℕ, String, ◌≡◌, refl, subst, inl, inr, Bool, true, false, not, ◌&&◌, ◌||◌, Option, none, some,
  Bool-cases, ok, >>=-eq-ok, ok-injective,
}
use nimplex.Prelude.Dict.{lookup}
use nimplex.Store.Records.{
  StoredSession, Sandbox, SandboxSessionState, UsageReason, reconnected, expired,
}
use nimplex.Store.Tables.{Database, session}
use nimplex.Metering.Usage.{
  SandboxTransition, running, paused, unobserved, deleted, missing, append_usage,
  start_sandbox_usage, settled_entry, close_interval, settle_interval, settle_sandbox_usage,
  record_running, record_transition, record_sandbox_transition, mark_uncertain, is_past,
  inherit_sandbox_usage, record_discarded_sandbox, is_some, deadline_from,
}
use nimplex.Metering.Ledger.{
  IsMetered, save_session-IsMetered, append_usage-IsMetered, session-found,
}

start-IsMetered :
    (session_id : String) (at : ℕ) (max_run_ms : Option ℕ) (db db' : Database)
    → IsMetered db
    → start_sandbox_usage session_id at max_run_ms db ≡ ok db'
    → IsMetered db'
unfolding start_sandbox_usage
start-IsMetered session_id at max_run_ms db db' h e =
    let (s, found, e1) = >>=-eq-ok (session session_id db) _ e in
    let u : StoredSession = record s {
      running_since = some at;
      run_deadline = deadline_from max_run_ms at;
    } in
    elim (Bool-cases (is_some s.running_since)) [
      | inl opened ↦ subst IsMetered (ok-injective (rw opened at e1)) h
      | inr closed ↦ subst IsMetered (ok-injective (rw closed at e1)) (
          save_session-IsMetered db session_id s u h (session-found session_id db s found) refl
            refl)
    ]

module _ (number_value : String → ℕ) (now : ℕ → String) where
  settle_interval-IsMetered :
      (session_id : String) (s : StoredSession) (since : Option ℕ) (provider : Option Sandbox)
      (reason : UsageReason) (turn_id : Option String) (at : ℕ) (uncertain : Bool)
      (db db' : Database)
      → IsMetered db
      → settle_interval number_value now session_id s since provider reason turn_id at uncertain db
        ≡ ok db'
      → IsMetered db'
  unfolding settle_interval
  settle_interval-IsMetered session_id s (some since) (some provider) reason turn_id at uncertain db
        db' h e =
      let entry = settled_entry number_value now s since provider reason turn_id at uncertain in
      let (db1, appended, e1) = >>=-eq-ok (append_usage now session_id entry db) _ e in
      let (s', found', e2) = >>=-eq-ok (session session_id db1) _ e1 in
      subst IsMetered (ok-injective e2) (
        save_session-IsMetered db1 session_id s' (close_interval s')
          (append_usage-IsMetered now session_id entry db db1 h appended)
          (session-found session_id db1 s' found') refl refl)
  settle_interval-IsMetered session_id s none provider reason turn_id at uncertain db db' h e =
      subst IsMetered (ok-injective e) h
  settle_interval-IsMetered session_id s (some since) none reason turn_id at uncertain db db' h e =
      subst IsMetered (ok-injective e) h

  settle-IsMetered :
      (session_id : String) (reason : UsageReason) (turn_id : Option String) (at : ℕ)
      (uncertain : Bool) (db db' : Database)
      → IsMetered db
      → settle_sandbox_usage number_value now session_id reason turn_id at uncertain db ≡ ok db'
      → IsMetered db'
  unfolding settle_sandbox_usage
  settle-IsMetered session_id reason turn_id at uncertain db db' h e =
      let (s, found, e1) = >>=-eq-ok (session session_id db) _ e in
      settle_interval-IsMetered session_id s s.running_since s.sandbox_provider reason turn_id at
        uncertain db db' h e1

  record_running-IsMetered :
      (session_id : String) (s : StoredSession) (turn_id : Option String) (at : ℕ)
      (max_run_ms : Option ℕ) (db db' : Database)
      → IsMetered db
      → lookup session_id db.sessions ≡ some s
      → record_running number_value now session_id s turn_id at max_run_ms db ≡ ok db'
      → IsMetered db'
  unfolding record_running
  record_running-IsMetered session_id s turn_id at max_run_ms db db' h found e =
      elim (Bool-cases (is_some s.running_since)) [
        | inr closed ↦ start-IsMetered session_id at max_run_ms db db' h (rw closed at e)
        | inl opened ↦
            let e1 = rw opened at e in
            elim (Bool-cases s.running_uncertain) [
              | inr watched ↦ subst IsMetered (ok-injective (rw watched at e1)) (
                  save_session-IsMetered db session_id s
                    (record s {
                      running_uncertain = false;
                      run_deadline = deadline_from max_run_ms at;
                    })
                    h found refl refl)
              | inl unwatched ↦
                  let (db1, settled, e2) =
                    >>=-eq-ok
                      (settle_sandbox_usage number_value now session_id reconnected turn_id at false
                        db)
                      _ (rw unwatched at e1) in
                  start-IsMetered session_id at max_run_ms db1 db'
                    (settle-IsMetered session_id reconnected turn_id at false db db1 h settled) e2
            ]
      ]

  mark_uncertain-IsMetered :
      (session_id : String) (s : StoredSession) (db : Database)
      → IsMetered db
      → lookup session_id db.sessions ≡ some s
      → IsMetered (mark_uncertain s db)
  mark_uncertain-IsMetered session_id s db h found =
      save_session-IsMetered db session_id s (record s { running_uncertain = true }) h found refl
        refl

  record_transition-IsMetered :
      (session_id : String) (s : StoredSession) (transition : SandboxTransition)
      (turn_id : Option String) (at : ℕ) (max_run_ms : Option ℕ) (db db' : Database)
      → IsMetered db
      → lookup session_id db.sessions ≡ some s
      → record_transition number_value now session_id s transition turn_id at max_run_ms db ≡ ok db'
      → IsMetered db'
  unfolding record_transition
  record_transition-IsMetered session_id s running turn_id at max_run_ms db db' h found e =
      record_running-IsMetered session_id s turn_id at max_run_ms db db' h found e
  record_transition-IsMetered session_id s paused turn_id at max_run_ms db db' h found e =
      settle-IsMetered session_id UsageReason.paused turn_id at false db db' h e
  record_transition-IsMetered session_id s deleted turn_id at max_run_ms db db' h found e =
      settle-IsMetered session_id UsageReason.deleted turn_id at false db db' h e
  record_transition-IsMetered session_id s missing turn_id at max_run_ms db db' h found e =
      settle-IsMetered session_id UsageReason.missing turn_id at true db db' h e
  record_transition-IsMetered session_id s unobserved turn_id at max_run_ms db db' h found e =
      elim (Bool-cases (is_some s.running_since && not s.running_uncertain)) [
        | inl news ↦
            subst IsMetered (ok-injective (rw news at e))
              (mark_uncertain-IsMetered session_id s db h found)
        | inr known ↦ subst IsMetered (ok-injective (rw known at e)) h
      ]

  -- The calls of the runtime that meter a sandbox, from one store to the next: at a transition that a
  -- provider reports, at a creation, at the deletion of a sandbox, for a sandbox that was never used
  -- and, for a session that the store holds, when a root is opened.
  pub data Meters (db db' : Database) : Type 0 where
    reported :
        (session_id : String) (transition : SandboxTransition) (turn_id : Option String) (at : ℕ)
        (max_run_ms : Option ℕ)
        → record_sandbox_transition number_value now session_id transition turn_id at max_run_ms db
          ≡ ok db'
        → Meters db db'
    created :
        (session_id : String) (at : ℕ) (max_run_ms : Option ℕ)
        → start_sandbox_usage session_id at max_run_ms db ≡ ok db'
        → Meters db db'
    cleaned :
        (session_id : String) (reason : UsageReason) (turn_id : Option String) (at : ℕ)
        (uncertain : Bool)
        → settle_sandbox_usage number_value now session_id reason turn_id at uncertain db ≡ ok db'
        → Meters db db'
    discarded :
        (session_id : String) (provider : Sandbox) (state : SandboxSessionState) (started : ℕ)
        (stopped : Bool) (turn_id : String) (max_run_ms : Option ℕ) (at : ℕ)
        → record_discarded_sandbox number_value now session_id provider state started stopped
            turn_id max_run_ms at db
          ≡ ok db'
        → Meters db db'
    inherited :
        (session_id : String) (s : StoredSession) (at : ℕ)
        → lookup session_id db.sessions ≡ some s
        → inherit_sandbox_usage number_value now s at db ≡ ok db'
        → Meters db db'

  transition-IsMetered :
      (session_id : String) (transition : SandboxTransition) (turn_id : Option String) (at : ℕ)
      (max_run_ms : Option ℕ) (db db' : Database)
      → IsMetered db
      → record_sandbox_transition number_value now session_id transition turn_id at max_run_ms db
        ≡ ok db'
      → IsMetered db'
  unfolding record_sandbox_transition
  transition-IsMetered session_id transition turn_id at max_run_ms db db' h e =
      let (s, found, e1) = >>=-eq-ok (session session_id db) _ e in
      elim (Bool-cases (is_some s.sandbox_state)) [
        | inl there ↦
            record_transition-IsMetered session_id s transition turn_id at max_run_ms db db' h
              (session-found session_id db s found) (rw there at e1)
        | inr gone ↦ subst IsMetered (ok-injective (rw gone at e1)) h
      ]

  inherit-IsMetered :
      (session_id : String) (s : StoredSession) (at : ℕ) (db db' : Database)
      → IsMetered db
      → lookup session_id db.sessions ≡ some s
      → inherit_sandbox_usage number_value now s at db ≡ ok db'
      → IsMetered db'
  unfolding inherit_sandbox_usage
  inherit-IsMetered session_id s at db db' h found e =
      elim (Bool-cases (not (is_some s.running_since) || not (is_some s.sandbox_provider))) [
        | inl idle ↦ subst IsMetered (ok-injective (rw idle at e)) h
        | inr metered ↦
            let e1 = rw metered at e in
            elim (Bool-cases (is_past s.run_deadline at)) [
              | inl past ↦ settle-IsMetered s.id expired none at true db db' h (rw past at e1)
              | inr alive ↦
                  let e2 = rw alive at e1 in
                  elim (Bool-cases s.running_uncertain) [
                    | inl known ↦ subst IsMetered (ok-injective (rw known at e2)) h
                    | inr news ↦
                        subst IsMetered (ok-injective (rw news at e2))
                          (mark_uncertain-IsMetered session_id s db h found)
                  ]
            ]
      ]

  discarded-IsMetered :
      (session_id : String) (provider : Sandbox) (state : SandboxSessionState) (started : ℕ)
      (stopped : Bool) (turn_id : String) (max_run_ms : Option ℕ) (at : ℕ) (db db' : Database)
      → IsMetered db
      → record_discarded_sandbox number_value now session_id provider state started stopped turn_id
          max_run_ms at db
        ≡ ok db'
      → IsMetered db'
  unfolding record_discarded_sandbox
  discarded-IsMetered session_id provider state started stopped turn_id max_run_ms at db db' h e =
      append_usage-IsMetered now session_id _ db db' h e

  -- Where every session is stored under its identity and its running total is the sum of its ledger,
  -- both still hold after any metering call that returns, at any time.
  pub Meters-IsMetered : {db db' : Database} → Meters db db' → IsMetered db → IsMetered db'
  Meters-IsMetered (reported session_id transition turn_id at max_run_ms e) h =
      transition-IsMetered session_id transition turn_id at max_run_ms _ _ h e
  Meters-IsMetered (created session_id at max_run_ms e) h =
      start-IsMetered session_id at max_run_ms _ _ h e
  Meters-IsMetered (cleaned session_id reason turn_id at uncertain e) h =
      settle-IsMetered session_id reason turn_id at uncertain _ _ h e
  Meters-IsMetered (discarded session_id provider state started stopped turn_id max_run_ms at e) h =
      discarded-IsMetered session_id provider state started stopped turn_id max_run_ms at _ _ h e
  Meters-IsMetered (inherited session_id s at found e) h =
      inherit-IsMetered session_id s at _ _ h found e
