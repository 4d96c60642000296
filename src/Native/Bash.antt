-- ===== src/Native/Bash.antt =====
-- `createNativeBash`: one native command, from the sandbox that it finds or makes to its journal.
use nimplex.Prelude.{
  ℕ, zero, suc, ◌+◌, String, Bool, true, not, ◌&&◌, ◌||◌, Option, none, some, [], ◌∷◌, str_eq, ltb,
  if◌then◌else◌, Result, ok, err,
}
use nimplex.Store.Records.{ExecutorEvent, SandboxSessionState, Bytes, RuntimeError, refused}
use nimplex.Metering.Usage.{deleted, is_some}
use nimplex.Checkpoints.Steps.{Host}
use nimplex.Native.Actions.{
  Action, ◌>>=◌, ◌>>◌, pure, throw, reading, catching, attempt, unless, of_result,
}
use nimplex.Native.Host.{NativeHost, ExecResult, Surroundings, World}
use nimplex.Native.Session.{
  ask, call, set_session, set_active, throw_if_aborted, transition, append_events,
  event_of_provider, pause_idle, resume_session, open_session, reconnect,
}
use nimplex.Native.Launch.{exec, exits, dispatch, record_dispatch, job_of}
use nimplex.Native.Journal.{Journal, Collected, collect}

module _ {H : Type 0} (run : NativeHost H) (env : Surroundings) where
  -- the pause after a journal that was collected
  abbrev pub paused_event : Option Bool → ExecutorEvent
  paused_event (some true) = event_of_provider run env "sandbox.paused"
  paused_event p = event_of_provider run env "sandbox.pause_failed"

  abbrev pub pause_collected : Action (World H) (Unit {0})
  pause_collected = do
    call run.assert_active
    was_paused ← pause_idle run env
    append_events run env (paused_event was_paused ∷ [])

  -- the next round reads again
  abbrev pub read_again : SandboxSessionState → Action (World H) (Option String)
  read_again box = do reconnect run env box; pure none

  -- the 200 ms before the next round, in which the clock and the abort signal may change
  abbrev pub sleep : Action (World H) (Option String)
  sleep = do ask (λ n. tt {0}); pure none

  -- what a round has found: the journal, or a reason to read again
  abbrev pub journal_text : ExecResult → Action (World H) (Option String)
  journal_text r = do
    unless (exits 0 r || exits 3 r) (refused "sandbox journal read failed")
    if exits 0 r && not (str_eq r.stdout "") then pure (some r.stdout) else sleep

  abbrev pub read_journal : SandboxSessionState → ExecResult → Action (World H) (Option String)
  read_journal box r =
      if r.timed_out && env.provider.can_pause then read_again box else journal_text r

  abbrev pub lost_read : SandboxSessionState → RuntimeError → Action (World H) (Option String)
  lost_read box e = do
    throw_if_aborted run env
    if not env.provider.can_pause then throw e else read_again box

  abbrev pub read_answer :
      SandboxSessionState → Result RuntimeError ExecResult → Action (World H) (Option String)
  read_answer box (err e) = lost_read box e
  read_answer box (ok r) = do throw_if_aborted run env; read_journal box r

  unfoldable pub poll_once : SandboxSessionState → Action (World H) (Option String)
  poll_once box = do throw_if_aborted run env; r ← attempt (exec run env); read_answer box r

  abbrev pub out_of_time : RuntimeError
  out_of_time = refused "sandbox command outcome unknown; journal did not complete"

  abbrev pub delete_sandbox : Action (World H) (Unit {0})
  delete_sandbox = do
    gone ← ask env.provider.delete
    unless gone (refused "delete failed")
    set_session none
    transition run env deleted none

  abbrev pub cleanup : Option SandboxSessionState → Action (World H) (Unit {0})
  cleanup none = pure tt
  cleanup (some box) =
      reading λ w. if run.should_destroy_on_abort w.host then delete_sandbox else pure tt

  -- `finally`
  unfoldable pub after_call : Action (World H) (Unit {0})
  after_call = do
    aborted ← ask env.aborted
    if aborted then reading (λ w. catching (cleanup w.active) λ e. pure tt) else pure tt

  abbrev pub refuse_unavailable : Option String → Action (World H) (Unit {0})
  refuse_unavailable none = pure tt
  refuse_unavailable (some e) = throw (refused e)

  abbrev pub available : Action (World H) (Unit {0})
  available = do
    throw_if_aborted run env
    unless (not env.is_local) (refused "native commands require a configured isolated sandbox")
    reason ← ask env.provider.unavailable_reason
    refuse_unavailable reason

  module _ (host : Host) (parse : String → Option Journal) (from_base64 : String → Bytes) where
    abbrev pub finish_command : String → Action (World H) Collected
    finish_command raw = do
      done ← of_result (collect host parse from_base64 raw)
      if env.provider.can_pause then pause_collected else pure tt
      pure done

    abbrev pub with_journal :
        Action (World H) Collected → Option String → Action (World H) Collected
    with_journal rest none = rest
    with_journal rest (some raw) = finish_command raw

    abbrev pub next_round :
        SandboxSessionState → Action (World H) Collected → Action (World H) Collected
    next_round box rest = poll_once box >>= with_journal rest

    abbrev pub poll_round :
        SandboxSessionState → ℕ → Action (World H) Collected → Action (World H) Collected
    poll_round box deadline rest =
        ask env.clock >>= λ now. if ltb now deadline then next_round box rest else throw out_of_time

    -- the loop until the deadline; the fuel is a bound on its rounds
    unfoldable pub poll : ℕ → SandboxSessionState → ℕ → Action (World H) Collected
    poll zero box deadline = throw (refused "out of fuel")
    poll (suc fuel) box deadline = poll_round box deadline (poll fuel box deadline)

    -- the rest of the call, in the sandbox
    unfoldable pub run_command : ℕ → ℕ → String → SandboxSessionState → Action (World H) Collected
    run_command fuel timeout_ms id box = do
      set_active (some box)
      directory ← exec run env
      unless (exits 0 directory) (refused "cannot create sandbox runtime directory")
      record_dispatch run env id
      written ← ask env.provider.write_file
      unless written (refused "write failed")
      dispatch run env box (job_of run env id)
      started ← ask env.clock
      poll fuel box (started + timeout_ms + 15000)

    -- `catch (error)`
    unfoldable pub on_failure : RuntimeError → Action (World H) Collected
    on_failure e = do
      aborted ← ask env.aborted
      if aborted then pure tt else (attempt (pause_idle run env) >>= λ done. pure tt)
      throw e

    abbrev pub in_sandbox : ℕ → ℕ → String → Bool → Action (World H) Collected
    in_sandbox fuel timeout_ms id had_state = do
      resume_session run env
      box ← open_session run env id had_state
      run_command fuel timeout_ms id box

    abbrev pub protected : Action (World H) Collected → Action (World H) Collected
    protected body = do settled ← attempt (catching body on_failure); after_call; of_result settled

    unfoldable pub native_bash : ℕ → ℕ → String → Action (World H) Collected
    native_bash fuel timeout_ms id = do
      available
      set_active none
      reading λ w. protected (in_sandbox fuel timeout_ms id (is_some w.state))
