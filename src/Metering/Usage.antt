-- ===== src/Metering/Usage.antt =====
-- Transitions of the open interval, its settlement and the running total.
use nimplex.Prelude.{
  ℕ, ◌+◌, ◌-◌, min, max, String, Bool, true, false, not, ◌&&◌, ◌||◌, Option, none, some, [], ◌∷◌,
  if◌then◌else◌, ltb, leb, Result, ok, ◌>>=◌,
}
use mathlib.Core.Option
use nimplex.Status.{RunStatus, status_eq}
use nimplex.Store.Records.{
  Sandbox, SandboxSessionState, SandboxUsageRecord, SandboxUsageSummary, UsageReason, StoredSession,
  RuntimeError, sandbox_usage, reconnected, expired, discarded,
}
use nimplex.Store.Tables.{Database, session, turn, save_session, append, append_sandbox_usage}
use nimplex.Metering.Rates.{lookup_sandbox_rate, is_free, interval_cost, size_of, SandboxSize}

pub data SandboxTransition : Type 0 where
  running paused unobserved deleted missing : SandboxTransition

abbrev pub no_usage : SandboxUsageSummary
no_usage = record {
  usd = 0;
  milliseconds = 0;
  unpriced_milliseconds = 0;
  uncertain = false;
  free = true;
}

abbrev pub or_else : {A : Type 0} → A → Option A → A
or_else d none = d
or_else d (some a) = a

abbrev pub unpriced : SandboxUsageRecord → ℕ
unpriced r = elim r.cost [ none ↦ r.milliseconds | some c ↦ 0 ]

unfoldable pub add_to_summary :
    Option SandboxUsageSummary → SandboxUsageRecord → SandboxUsageSummary
add_to_summary summary r =
    let total = or_else no_usage summary in
    record {
      usd = total.usd + or_else 0 r.cost;
      milliseconds = total.milliseconds + r.milliseconds;
      unpriced_milliseconds = total.unpriced_milliseconds + unpriced r;
      uncertain = total.uncertain || r.uncertain;
      free = total.free && is_free r.provider;
    }

abbrev pub deadline_from : Option ℕ → ℕ → Option ℕ
deadline_from max_run_ms at = Option.map (λ ms. at + ms) max_run_ms

pub record MeteredTime : Type 0 where
  pub provider : Sandbox
  pub size : SandboxSize
  pub reason : UsageReason
  pub started : ℕ
  pub ended : ℕ
  pub uncertain : Bool
  pub turn_id : Option String

-- the record of an entry
unfoldable pub usage_record : MeteredTime → SandboxUsageRecord
unfolding lookup_sandbox_rate interval_cost
usage_record entry = record {
  provider = entry.provider;
  reason = entry.reason;
  started_at = entry.started;
  ended_at = entry.ended;
  milliseconds = entry.ended - entry.started;
  cost =
      Option.map (interval_cost (entry.ended - entry.started))
        (lookup_sandbox_rate entry.provider entry.size);
  uncertain = entry.uncertain;
  turn_id = entry.turn_id;
}

abbrev pub is_some : {A : Type 0} → Option A → Bool
is_some none = false
is_some (some a) = true

-- `now` stamps the rows of the event log.
module _ (now : ℕ → String) where
  -- a turn that is running gets an event
  unfoldable pub note_usage :
      Option String → SandboxUsageRecord → Database → Result RuntimeError Database
  note_usage none r db = ok db
  note_usage (some id) r db = do
    t ← turn id db
    ok (
        if status_eq t.result.status RunStatus.running
        then append now id (sandbox_usage r ∷ []) db
        else db)

  unfoldable pub append_usage : String → MeteredTime → Database → Result RuntimeError Database
  append_usage session_id entry db = do
    let r = usage_record entry
    db' ← note_usage entry.turn_id r (append_sandbox_usage session_id r db)
    s ← session session_id db'
    ok (save_session (record s { usage_summary = some (add_to_summary s.usage_summary r) }) db')

-- `at` is the caller's time, or the clock's
unfoldable pub start_sandbox_usage : String → ℕ → Option ℕ → Database → Result RuntimeError Database
start_sandbox_usage session_id at max_run_ms db = do
  s ← session session_id db
  ok (
      if is_some s.running_since
      then db
      else save_session
          (record s { running_since = some at; run_deadline = deadline_from max_run_ms at }) db)

-- the interval's end: no later than the deadline, no earlier than the start
unfoldable pub interval_end : ℕ → ℕ → Option ℕ → ℕ
interval_end started observed none = max started observed
interval_end started observed (some deadline) = max started (min observed deadline)

abbrev pub close_interval : StoredSession → StoredSession
close_interval s = record s { running_since = none; running_uncertain = false; run_deadline = none }

abbrev pub mark_uncertain : StoredSession → Database → Database
mark_uncertain s db = save_session (record s { running_uncertain = true }) db

abbrev pub is_past : Option ℕ → ℕ → Bool
is_past none at = false
is_past (some deadline) at = leb deadline at

abbrev discarded_end : Bool → ℕ → Option ℕ → ℕ → ℕ
discarded_end stopped started none at = at
discarded_end true started (some ms) at = at
discarded_end false started (some ms) at = started + ms

-- The number that a JSON text stands for, and the clock of the event log.
module _ (number_value : String → ℕ) (now : ℕ → String) where
  abbrev pub settled_entry :
      StoredSession → ℕ → Sandbox → UsageReason → Option String → ℕ → Bool → MeteredTime
  settled_entry s since provider reason turn_id at uncertain =
      let ended = interval_end since at s.run_deadline in
      record {
        provider = provider;
        size = size_of number_value s.sandbox_state;
        reason = reason;
        started = since;
        ended = ended;
        uncertain = uncertain || s.running_uncertain || ltb ended at;
        turn_id = turn_id;
      }

  -- the settlement of a session, by its open interval and its provider
  unfoldable pub settle_interval :
      String
      → StoredSession
      → Option ℕ
      → Option Sandbox
      → UsageReason
      → Option String
      → ℕ
      → Bool
      → Database
      → Result RuntimeError Database
  settle_interval session_id s (some since) (some provider) reason turn_id at uncertain db = do
    db' ←
        append_usage now session_id (settled_entry s since provider reason turn_id at uncertain) db
    s' ← session session_id db'
    ok (save_session (close_interval s') db')
  settle_interval session_id s _ _ reason turn_id at uncertain db = ok db

  unfoldable pub settle_sandbox_usage :
      String → UsageReason → Option String → ℕ → Bool → Database → Result RuntimeError Database
  settle_sandbox_usage session_id reason turn_id at uncertain db = do
    s ← session session_id db
    settle_interval session_id s s.running_since s.sandbox_provider reason turn_id at uncertain db

  unfoldable pub record_running :
      String
      → StoredSession
      → Option String
      → ℕ
      → Option ℕ
      → Database
      → Result RuntimeError Database
  record_running session_id s turn_id at max_run_ms db =
      if not (is_some s.running_since)
      then start_sandbox_usage session_id at max_run_ms db
      else if not s.running_uncertain
      then ok (save_session (record s { run_deadline = deadline_from max_run_ms at }) db)
      else do
        db' ← settle_sandbox_usage session_id reconnected turn_id at false db
        start_sandbox_usage session_id at max_run_ms db'

  unfoldable pub record_transition :
      String
      → StoredSession
      → SandboxTransition
      → Option String
      → ℕ
      → Option ℕ
      → Database
      → Result RuntimeError Database
  record_transition session_id s unobserved turn_id at max_run_ms db =
      ok (if is_some s.running_since && not s.running_uncertain then mark_uncertain s db else db)
  record_transition session_id s running turn_id at max_run_ms db =
      record_running session_id s turn_id at max_run_ms db
  record_transition session_id s paused turn_id at max_run_ms db =
      settle_sandbox_usage session_id UsageReason.paused turn_id at false db
  record_transition session_id s deleted turn_id at max_run_ms db =
      settle_sandbox_usage session_id UsageReason.deleted turn_id at false db
  record_transition session_id s missing turn_id at max_run_ms db =
      settle_sandbox_usage session_id UsageReason.missing turn_id at true db

  unfoldable pub record_sandbox_transition :
      String
      → SandboxTransition
      → Option String
      → ℕ
      → Option ℕ
      → Database
      → Result RuntimeError Database
  record_sandbox_transition session_id transition turn_id at max_run_ms db = do
    s ← session session_id db
    (if is_some s.sandbox_state
        then record_transition session_id s transition turn_id at max_run_ms db
        else ok db)

  unfoldable pub inherit_sandbox_usage : StoredSession → ℕ → Database → Result RuntimeError Database
  inherit_sandbox_usage s at db =
      if not (is_some s.running_since) || not (is_some s.sandbox_provider)
      then ok db
      else if is_past s.run_deadline at
      then settle_sandbox_usage s.id expired none at true db
      else ok (if s.running_uncertain then db else mark_uncertain s db)

  unfoldable pub record_discarded_sandbox :
      String
      → Sandbox
      → SandboxSessionState
      → ℕ
      → Bool
      → String
      → Option ℕ
      → ℕ
      → Database
      → Result RuntimeError Database
  record_discarded_sandbox session_id provider state started stopped turn_id max_run_ms at db =
      append_usage now session_id
        (record {
          provider = provider;
          size = size_of number_value (some state);
          reason = discarded;
          started = started;
          ended = discarded_end stopped started max_run_ms at;
          uncertain = not stopped;
          turn_id = some turn_id;
        })
        db
