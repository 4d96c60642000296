-- ===== src/Runtime/Growth.antt =====
-- What a change of the store does to a turn's log: it only adds to it.
use nimplex.Prelude.{
  ℕ, String, ◌≡◌, ◌∙◌, sym, ap, subst, inl, inr, Bool, true, false, Bool-cases, not, Option, none,
  some, List, [], ◌++◌, append-nil, append_assoc, str_eq, eq_iff, if◌then◌else◌, Result, ok, ◌>>=◌,
  >>=-eq-ok, ok-injective,
}
use nimplex.Store.Records.{
  ExecutorEvent, StoredSession, StoredTurn, SandboxUsageRecord, Sandbox, SandboxSessionState,
  UsageReason, RuntimeError,
}
use nimplex.Store.Tables.{
  Database, session, turn, events, append, save_session, save_turn, append_sandbox_usage,
}
use nimplex.Store.Events.{IsLog, log, log-append}
use nimplex.Metering.Usage.{
  MeteredTime, SandboxTransition, append_usage, note_usage, usage_record, settle_interval,
  settle_sandbox_usage, start_sandbox_usage, record_running, record_transition,
  record_sandbox_transition, record_discarded_sandbox, is_some, settled_entry, deadline_from,
}

pub record Grows (id : String) (db db' : Database) : Type 0 where
  pub dense : IsLog db → IsLog db'
  pub longer : IsLog db → (more : List ExecutorEvent) × (log id db' ≡ log id db ++ more)

module _ (id : String) where
  pub Grows-refl : (db : Database) → Grows id db db
  Grows-refl db = record { dense = λ h. h; longer = λ h. ([], sym (append-nil _)) }

  pub Grows-trans : {a b c : Database} → Grows id a b → Grows id b c → Grows id a c
  Grows-trans {a} f g = record {
    dense = λ h. g.dense (f.dense h);
    longer = λ h.
        let (more, e) = f.longer h in
        let (more', e') = g.longer (f.dense h) in
        (more ++ more', e' ∙ ap (λ es. es ++ more') e ∙ append_assoc (log id a) more more');
  }

  pub save_session-Grows : (s : StoredSession) (db : Database) → Grows id db (save_session s db)
  unfolding save_session events
  save_session-Grows s db = record {
    dense = λ h. record { dense = h.dense };
    longer = λ h. ([], sym (append-nil _));
  }

  pub save_turn-Grows : (t : StoredTurn) (db : Database) → Grows id db (save_turn t db)
  unfolding save_turn events
  save_turn-Grows t db = record {
    dense = λ h. record { dense = h.dense };
    longer = λ h. ([], sym (append-nil _));
  }

  append_sandbox_usage-Grows :
      (j : String) (r : SandboxUsageRecord) (db : Database)
      → Grows id db (append_sandbox_usage j r db)
  unfolding append_sandbox_usage events
  append_sandbox_usage-Grows j r db = record {
    dense = λ h. record { dense = h.dense };
    longer = λ h. ([], sym (append-nil _));
  }

  pub append-Grows :
      (now : ℕ → String) (j : String) (es : List ExecutorEvent) (db : Database)
      → Grows id db (append now j es db)
  append-Grows now j es db = record {
    dense = λ h. (log-append now j es db h).0;
    longer = λ h. elim (Bool-cases (str_eq j id)) [
      | inl own ↦
          let same : j ≡ id = (eq_iff j id).0 own in
          (
            es,
            subst (λ k. log k (append now j es db) ≡ log k db ++ es) same
                (log-append now j es db h).1,
          )
      | inr foreign ↦ ([], (log-append now j es db h).2 id foreign ∙ sym (append-nil _))
    ];
  }

  -- a computation whose result, when it has one, only adds
  pub grown :
      {db a b : Database}
      → Grows id db a
      → Path (Result RuntimeError Database) (ok a) (ok b)
      → Grows id db b
  grown {db} g e = subst (Grows id db) (ok-injective e) g

  pub grown_if :
      {db : Database} (c : Bool) (a b : Database)
      → Grows id db a
      → Grows id db b
      → Grows id db (if c then a else b)
  grown_if true a b g k = g
  grown_if false a b g k = k

  pub start_sandbox_usage-Grows :
      (j : String) (at : ℕ) (ms : Option ℕ) (db db' : Database)
      → start_sandbox_usage j at ms db ≡ ok db'
      → Grows id db db'
  unfolding start_sandbox_usage
  start_sandbox_usage-Grows j at ms db db' h =
      let (s, found, h1) = >>=-eq-ok (session j db) _ h in
      grown (grown_if (is_some s.running_since) _ _ (Grows-refl db) (save_session-Grows _ db)) h1

  module _ (number_value : String → ℕ) (now : ℕ → String) where
    note_usage-Grows :
        (t : Option String) (r : SandboxUsageRecord) (db db' : Database)
        → note_usage now t r db ≡ ok db'
        → Grows id db db'
    unfolding note_usage
    note_usage-Grows none r db db' h = grown (Grows-refl db) h
    note_usage-Grows (some j) r db db' h =
        let (t, found, h1) = >>=-eq-ok (turn j db) _ h in
        grown (grown_if _ _ _ (append-Grows now j _ db) (Grows-refl db)) h1

    append_usage-Grows :
        (j : String) (entry : MeteredTime) (db db' : Database)
        → append_usage now j entry db ≡ ok db'
        → Grows id db db'
    unfolding append_usage
    append_usage-Grows j entry db db' h =
        let r = usage_record entry in
        let (db1, noted, h1) =
          >>=-eq-ok (note_usage now entry.turn_id r (append_sandbox_usage j r db)) _ h in
        let (s, found, h2) = >>=-eq-ok (session j db1) _ h1 in
        grown
          (Grows-trans (append_sandbox_usage-Grows j r db)
            (Grows-trans (note_usage-Grows entry.turn_id r _ db1 noted) (save_session-Grows _ db1)))
          h2

    settle_interval-Grows :
        (j : String) (s : StoredSession) (since : Option ℕ) (provider : Option Sandbox)
        (reason : UsageReason) (t : Option String) (at : ℕ) (uncertain : Bool) (db db' : Database)
        → settle_interval number_value now j s since provider reason t at uncertain db ≡ ok db'
        → Grows id db db'
    unfolding settle_interval
    settle_interval-Grows j s none provider reason t at uncertain db db' h = grown (Grows-refl db) h
    settle_interval-Grows j s (some since) none reason t at uncertain db db' h =
        grown (Grows-refl db) h
    settle_interval-Grows j s (some since) (some provider) reason t at uncertain db db' h =
        let (db1, added, h1) =
          >>=-eq-ok
            (append_usage now j
              (settled_entry number_value now s since provider reason t at uncertain) db)
            _ h in
        let (s', found, h2) = >>=-eq-ok (session j db1) _ h1 in
        grown (Grows-trans (append_usage-Grows j _ db db1 added) (save_session-Grows _ db1)) h2

    settle_sandbox_usage-Grows :
        (j : String) (reason : UsageReason) (t : Option String) (at : ℕ) (uncertain : Bool)
        (db db' : Database)
        → settle_sandbox_usage number_value now j reason t at uncertain db ≡ ok db'
        → Grows id db db'
    unfolding settle_sandbox_usage
    settle_sandbox_usage-Grows j reason t at uncertain db db' h =
        let (s, found, h1) = >>=-eq-ok (session j db) _ h in
        settle_interval-Grows j s _ _ reason t at uncertain db db' h1

    record_running-Grows :
        (j : String) (s : StoredSession) (t : Option String) (at : ℕ) (ms : Option ℕ)
        (begun certain : Bool) (db db' : Database)
        → (if not begun
            then start_sandbox_usage j at ms db
            else if not certain
            then ok (save_session (record s { run_deadline = deadline_from ms at }) db)
            else settle_sandbox_usage number_value now j UsageReason.reconnected t at false db
              >>= λ db'. start_sandbox_usage j at ms db')
          ≡ ok db'
        → Grows id db db'
    record_running-Grows j s t at ms false certain db db' h =
        start_sandbox_usage-Grows j at ms db db' h
    record_running-Grows j s t at ms true false db db' h = grown (save_session-Grows _ db) h
    record_running-Grows j s t at ms true true db db' h =
        let (db1, settled, h1) =
          >>=-eq-ok (settle_sandbox_usage number_value now j UsageReason.reconnected t at false db)
            _ h in
        Grows-trans (settle_sandbox_usage-Grows j _ t at false db db1 settled)
          (start_sandbox_usage-Grows j at ms db1 db' h1)

    record_transition-Grows :
        (j : String) (s : StoredSession) (change : SandboxTransition) (t : Option String) (at : ℕ)
        (ms : Option ℕ) (db db' : Database)
        → record_transition number_value now j s change t at ms db ≡ ok db'
        → Grows id db db'
    unfolding record_transition record_running
    record_transition-Grows j s SandboxTransition.unobserved t at ms db db' h =
        grown (grown_if _ _ _ (save_session-Grows _ db) (Grows-refl db)) h
    record_transition-Grows j s SandboxTransition.running t at ms db db' h =
        record_running-Grows j s t at ms (is_some s.running_since) s.running_uncertain db db' h
    record_transition-Grows j s SandboxTransition.paused t at ms db db' h =
        settle_sandbox_usage-Grows j _ t at false db db' h
    record_transition-Grows j s SandboxTransition.deleted t at ms db db' h =
        settle_sandbox_usage-Grows j _ t at false db db' h
    record_transition-Grows j s SandboxTransition.missing t at ms db db' h =
        settle_sandbox_usage-Grows j _ t at true db db' h

    transition_if :
        (j : String) (s : StoredSession) (change : SandboxTransition) (t : Option String) (at : ℕ)
        (ms : Option ℕ) (created : Bool) (db db' : Database)
        → (if created then record_transition number_value now j s change t at ms db else ok db)
          ≡ ok db'
        → Grows id db db'
    transition_if j s change t at ms true db db' h =
        record_transition-Grows j s change t at ms db db' h
    transition_if j s change t at ms false db db' h = grown (Grows-refl db) h

    pub record_sandbox_transition-Grows :
        (j : String) (change : SandboxTransition) (t : Option String) (at : ℕ) (ms : Option ℕ)
        (db db' : Database)
        → record_sandbox_transition number_value now j change t at ms db ≡ ok db'
        → Grows id db db'
    unfolding record_sandbox_transition
    record_sandbox_transition-Grows j change t at ms db db' h =
        let (s, found, h1) = >>=-eq-ok (session j db) _ h in
        transition_if j s change t at ms (is_some s.sandbox_state) db db' h1

    pub record_discarded_sandbox-Grows :
        (j : String) (provider : Sandbox) (state : SandboxSessionState) (started : ℕ)
        (stopped : Bool) (t : String) (ms : Option ℕ) (at : ℕ) (db db' : Database)
        → record_discarded_sandbox number_value now j provider state started stopped t ms at db
          ≡ ok db'
        → Grows id db db'
    unfolding record_discarded_sandbox
    record_discarded_sandbox-Grows j provider state started stopped t ms at db db' h =
        append_usage-Grows j _ db db' h
