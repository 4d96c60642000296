-- ===== src/Metering/Bounds.antt =====
-- What one settlement records: an interval inside the sandbox's lifetime, closed for good.
use nimplex.Prelude.{
  ℕ, ◌+◌, ◌≤◌, ◌<◌, max, String, ◌≡◌, refl, ◌∙◌, sym, ap, Bool, true, ◌||◌, Option, none, some, [],
  ◌∷◌, ◌++◌, ltb, lt→ltb, ok, >>=-eq-ok, ok-injective, eq_refl, or-true, arith,
}
use nimplex.Prelude.Dict.{lookup-insert}
use nimplex.Store.Records.{StoredSession, Sandbox, SandboxUsageRecord, UsageReason}
use nimplex.Store.Tables.{Database, session, save_session}
use nimplex.Metering.Usage.{
  interval_end, append_usage, usage_record, settled_entry, close_interval, settle_interval,
  settle_sandbox_usage,
}
use nimplex.Metering.Ledger.{
  IsMetered, ledger_of, append_usage-IsMetered, ledger-append_usage, session-found,
}

-- A record of an interval that began at `since`, was settled at `at` and whose sandbox had the
-- deadline: it lasts from `since`, no longer than to the settlement or to the deadline, whichever is
-- first, and where the deadline cut it, it is uncertain.
abbrev pub IsWithin : ℕ → ℕ → Option ℕ → SandboxUsageRecord → Type 0
IsWithin since at deadline r =
    (r.started_at ≡ since)
    × (since + r.milliseconds ≡ r.ended_at)
    × (r.ended_at ≤ max since at)
    × ((d : ℕ) → deadline ≡ some d → r.ended_at ≤ max since d)
    × (r.ended_at < at → r.uncertain ≡ true)

interval_end_bounds :
    (since at : ℕ) (deadline : Option ℕ)
    → let ended = interval_end since at deadline in
      (since ≤ ended) × (ended ≤ max since at) × ((d : ℕ) → deadline ≡ some d → ended ≤ max since d)
unfolding interval_end
interval_end_bounds since at none = (omega arith, omega arith, λ d e. cc)
interval_end_bounds since at (some deadline) =
    (omega arith, omega arith, λ d e. let same : deadline ≡ d = cc in rw (← same) (omega arith))

ledger-save_session :
    (id : String) (s : StoredSession) (db : Database)
    → ledger_of id (save_session s db).ledger ≡ ledger_of id db.ledger
unfolding save_session
ledger-save_session id s db = refl

session-save_session :
    (id : String) (s : StoredSession) (db : Database)
    → s.id ≡ id
    → session id (save_session s db) ≡ ok s
unfolding session save_session
session-save_session id s db own = rw (lookup-insert s.id id s db.sessions, own, eq_refl id)

module _ (number_value : String → ℕ) (now : ℕ → String) where
  settled_entry-IsWithin :
      (s : StoredSession) (since : ℕ) (provider : Sandbox) (reason : UsageReason)
      (turn_id : Option String) (at : ℕ) (uncertain : Bool)
      → IsWithin since at s.run_deadline (
          usage_record
            (settled_entry number_value now s since provider reason turn_id at uncertain))
  unfolding usage_record
  settled_entry-IsWithin s since provider reason turn_id at uncertain =
      let (least, most, deadlines) = interval_end_bounds since at s.run_deadline in
      (
        refl,
        omega (arith, least),
        most,
        deadlines,
        λ cut.
            let cut' : ltb (interval_end since at s.run_deadline) at ≡ true = lt→ltb _ _ cut in
            rw cut' (or-true (uncertain || s.running_uncertain)),
      )

  -- Where the totals agree with the ledger, settling a session's open interval, on a known provider,
  -- when it returns, has added one record to the session's ledger, bounded as above, and left the
  -- session with no open interval.
  pub settle_sandbox_usage_lem :
      (session_id : String) (reason : UsageReason) (turn_id : Option String) (at : ℕ)
      (uncertain : Bool) (s : StoredSession) (since : ℕ) (provider : Sandbox) (db db' : Database)
      → IsMetered db
      → session session_id db ≡ ok s
      → s.running_since ≡ some since
      → s.sandbox_provider ≡ some provider
      → settle_sandbox_usage number_value now session_id reason turn_id at uncertain db ≡ ok db'
      → (r : SandboxUsageRecord) × (s' : StoredSession) × (ledger_of session_id db'.ledger
          ≡ ledger_of session_id db.ledger ++ r ∷ [])
        × IsWithin since at s.run_deadline r
        × (session session_id db' ≡ ok s')
        × (s'.running_since ≡ none)
  unfolding settle_sandbox_usage settle_interval
  settle_sandbox_usage_lem session_id reason turn_id at uncertain s since provider db db' h found
        opened somewhere e =
      let entry = settled_entry number_value now s since provider reason turn_id at uncertain in
      let e1 = rw (found, opened, somewhere) at e in
      let (db1, appended, e2) = >>=-eq-ok (append_usage now session_id entry db) _ e1 in
      let (u, found', e3) = >>=-eq-ok (session session_id db1) _ e2 in
      let own =
        (append_usage-IsMetered now session_id entry db db1 h appended session_id u
          (session-found session_id db1 u found')).0 in
      (
        usage_record entry,
        close_interval u,
        ap (λ d. ledger_of session_id d.ledger) (sym (ok-injective e3))
            ∙ ledger-save_session session_id (close_interval u) db1
            ∙ ledger-append_usage now session_id entry db db1 appended,
        settled_entry-IsWithin s since provider reason turn_id at uncertain,
        ap (session session_id) (sym (ok-injective e3))
            ∙ session-save_session session_id (close_interval u) db1 own,
        refl,
      )
