-- ===== src/Native/Session.antt =====
-- The sandbox of a native command: found again, made, reconnected to, paused.
use nimplex.Prelude.{
  ℕ, suc, String, Bool, not, Option, none, some, List, [], ◌∷◌, any, if◌then◌else◌, Result, ok,
}
use nimplex.Storage.Records.{text, object, member, end}
use nimplex.Store.Records.{ExecutorEvent, other, SandboxSessionState, RuntimeError, refused}
use nimplex.Metering.Usage.{SandboxTransition, running, paused, unobserved, missing}
use nimplex.Native.Actions.{Action, ◌>>=◌, ◌>>◌, pure, throw, reading, catching, modify, unless}
use nimplex.Native.Host.{NativeHost, Resumption, Surroundings, World, is_dispatch}

module _ {H : Type 0} where
  -- a call of the outside
  unfoldable pub ask : {A : Type 0} → (ℕ → A) → Action (World H) A
  ask f w = (ok (f w.tick), record w { tick = suc w.tick })

  -- an operation of the host
  unfoldable pub call : (ℕ → H → Result RuntimeError (Unit {0}) × H) → Action (World H) (Unit {0})
  call op w = let (r, h) = op w.tick w.host in (r, record w { host = h; tick = suc w.tick })

  abbrev pub set_session : Option SandboxSessionState → Action (World H) (Unit {0})
  set_session s = modify λ w. record w { session = s }

  abbrev pub set_active : Option SandboxSessionState → Action (World H) (Unit {0})
  set_active s = modify λ w. record w { active = s }

  abbrev pub set_state : Option SandboxSessionState → Action (World H) (Unit {0})
  set_state s = modify λ w. record w { state = s }

module _ {H : Type 0} (run : NativeHost H) (env : Surroundings) where
  abbrev pub throw_if_aborted : Action (World H) (Unit {0})
  throw_if_aborted = ask env.aborted >>= λ aborted. unless (not aborted) (refused "aborted")

  abbrev pub transition : SandboxTransition → Option ℕ → Action (World H) (Unit {0})
  transition t at = call (run.sandbox_transition t at)

  abbrev pub append_events : List ExecutorEvent → Action (World H) (Unit {0})
  append_events es = call (run.append_events es)

  abbrev pub event_of_provider : String → ExecutorEvent
  event_of_provider kind =
      other kind (object (member "provider" (text env.provider.backend_id) end))

  abbrev pub record_state : SandboxSessionState → Bool → ℕ → Action (World H) (Unit {0})
  record_state next reset started_at = do
    call (run.record_state next reset started_at)
    set_state (some next)

  abbrev pub pause_session : Option SandboxSessionState → Action (World H) (Option Bool)
  pause_session none = pure none
  pause_session (some target) = do
    set_session none
    was_paused ← ask env.provider.pause
    transition (if was_paused then paused else unobserved) none
    pure (some was_paused)

  unfoldable pub pause_idle : Action (World H) (Option Bool)
  pause_idle = if env.provider.can_pause then reading (λ w. pause_session w.session) else pure none

  abbrev pub after_resume : SandboxSessionState → ℕ → Resumption → Action (World H) (Unit {0})
  after_resume s resumed_at Resumption.failed = throw (refused "resume failed")
  after_resume s resumed_at Resumption.missing = do set_session none; transition missing none
  after_resume s resumed_at Resumption.resumed = do
    set_session (some s)
    transition running (some resumed_at)
    append_events (event_of_provider "sandbox.resumed" ∷ [])

  abbrev pub resume_into :
      Option SandboxSessionState → Option SandboxSessionState → Action (World H) (Unit {0})
  resume_into none (some s) = do
    resumed_at ← ask env.clock
    found ← ask env.provider.resume
    after_resume s resumed_at found
  resume_into session state = pure tt

  -- `if (!session && state)`
  unfoldable pub resume_session : Action (World H) (Unit {0})
  resume_session = reading λ w. resume_into w.session w.state

  -- the sandbox that the turn could not record
  abbrev pub discard : SandboxSessionState → ℕ → RuntimeError → Action (World H) (Unit {0})
  discard created started_at e = do
    stopped ← ask env.provider.stop
    call (run.sandbox_discarded created started_at stopped)
    throw e

  abbrev pub refuse_replay : String → Action (World H) (Unit {0})
  refuse_replay id = reading λ w. unless (not (any (is_dispatch id) (run.read_events w.host))) (
      refused "environment.reset: previous command outcome is unknown because its sandbox was lost")

  abbrev pub after_create :
      String → Bool → ℕ → Option SandboxSessionState → Action (World H) SandboxSessionState
  after_create id had_state started_at none = throw (refused "create failed")
  after_create id had_state started_at (some created) = do
    catching (record_state created had_state started_at) (discard created started_at)
    set_session (some created)
    refuse_replay id
    pure created

  abbrev pub session_or_new :
      String → Bool → Option SandboxSessionState → Action (World H) SandboxSessionState
  session_or_new id had_state (some s) = pure s
  session_or_new id had_state none = do
    started_at ← ask env.clock
    created ← ask env.provider.create
    after_create id had_state started_at created

  -- `if (!session)`
  unfoldable pub open_session : String → Bool → Action (World H) SandboxSessionState
  open_session id had_state = reading λ w. session_or_new id had_state w.session

  abbrev pub after_reconnect : SandboxSessionState → ℕ → Resumption → Action (World H) (Unit {0})
  after_reconnect s resumed_at Resumption.failed = throw (refused "resume failed")
  after_reconnect s resumed_at Resumption.missing = do
    set_session none
    transition missing none
    throw (refused "sandbox missing")
  after_reconnect s resumed_at Resumption.resumed = do
    set_session (some s)
    set_active (some s)
    transition running (some resumed_at)

  unfoldable pub reconnect : SandboxSessionState → Action (World H) (Unit {0})
  reconnect current = do
    call run.assert_active
    throw_if_aborted
    resumed_at ← ask env.clock
    found ← ask env.provider.resume
    after_reconnect current resumed_at found
