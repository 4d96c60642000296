-- ===== src/Native/Idle.antt =====
-- A sandbox that can pause is not left held by a call: it is paused, or no longer the worker's.
use nimplex.Prelude.{
  ℕ, zero, suc, String, ◌≡◌, refl, Bool, true, false, Option, none, some, if◌then◌else◌, ltb,
}
use nimplex.Store.Records.{SandboxSessionState, Bytes, RuntimeError}
use nimplex.Metering.Usage.{is_some}
use nimplex.Checkpoints.Steps.{Host}
use nimplex.Native.Actions.{Action, ◌>>=◌, pure, throw, attempt}
use nimplex.Native.Keeps.{
  Keeps, keeps_rules, Keeps-of_result, Ensures, Ensures-bind, Ensures-pure, Ensures-reading,
  Ensures-throw, Ensures-catching, Ensures-weaken, Ensures-from, Ensures-and, Ensures-if,
  Keeps-Ensures, Ensures-attempt, Ensures-at,
}
use nimplex.Native.Host.{NativeHost, Surroundings, World}
use nimplex.Native.Session.{pause_session, pause_idle}
use nimplex.Native.Journal.{Journal, Collected}
use nimplex.Native.Bash.{
  pause_collected, with_journal, next_round, out_of_time, poll_once, poll, run_command, on_failure,
  after_call, in_sandbox, protected, available, refuse_unavailable, native_bash,
}
use nimplex.Native.Sessionless.{
  HasNoSession, Any, anything, ask-HasNoSession, call-HasNoSession, clear_session,
  set_active-HasNoSession, ask-Ensures, given, first,
}

module _ {H : Type 0} (run : NativeHost H) (env : Surroundings)
    (pausable : env.provider.can_pause ≡ true) (kept : (n : ℕ) → env.aborted n ≡ false) where
  no_session :
      {A : Type 0} {m : Action (World H) A}
      → Keeps HasNoSession m
      → Ensures HasNoSession m (λ a. HasNoSession) HasNoSession
  no_session = Keeps-Ensures

  refuted : {T : Type 0} (b : Bool) → b ≡ false → b ≡ true → T
  refuted b off on = cc

  paused_session :
      (s : Option SandboxSessionState)
      → Ensures (λ w. w.session ≡ s) (pause_session run env s) (λ done. HasNoSession) HasNoSession
  paused_session none = Ensures-pure none λ w p. p
  paused_session (some s) =
      Ensures-bind _ _ _ clear_session
        λ done. Keeps-Ensures (search (keeps_rules, ask-HasNoSession, call-HasNoSession))

  pause_idle-HasNoSession : Ensures Any (pause_idle run env) (λ done. HasNoSession) HasNoSession
  unfolding pause_idle
  pause_idle-HasNoSession =
      Ensures-if env.provider.can_pause _ _
        (λ on. Ensures-reading _ λ w p. (paused_session w.session).after w refl) (λ off. cc)

  when_running :
      (host : Host) (parse : String → Option Journal) (from_base64 : String → Bytes)
      (e : RuntimeError) (aborted : Bool)
      → aborted ≡ false
      → Ensures Any
          ((if aborted then pure tt else (attempt (pause_idle run env) >>= λ done. pure tt))
            >>= λ done. throw {A = Collected} e)
          (λ done. HasNoSession)
          HasNoSession
  when_running host parse from_base64 e true off = cc
  when_running host parse from_base64 e false off =
      Ensures-bind (λ done. HasNoSession) _ _
        (Ensures-bind (λ done. HasNoSession) _ _ (Ensures-attempt _ pause_idle-HasNoSession)
          λ done. Ensures-pure tt λ w p. p)
        λ done. Ensures-throw e λ w p. p

  on_failure-HasNoSession :
      (host : Host) (parse : String → Option Journal) (from_base64 : String → Bytes)
      (e : RuntimeError)
      → Ensures Any
          (on_failure run env host parse from_base64 e)
          (λ done. HasNoSession)
          HasNoSession
  unfolding on_failure
  on_failure-HasNoSession host parse from_base64 e =
      Ensures-bind _ _ _ (ask-Ensures env.aborted false kept) λ aborted. record {
        after = λ w off. (when_running host parse from_base64 e aborted off).after w tt;
      }

  after_call-HasNoSession :
      Ensures HasNoSession (after_call run env) (λ done. HasNoSession) HasNoSession
  unfolding after_call
  after_call-HasNoSession =
      Ensures-bind (λ aborted w. (aborted ≡ false) × HasNoSession w) _ _
        (Ensures-weaken (λ a w p. p) (λ w p. p)
          (Ensures-from (λ w p. (p, p))
            (Ensures-and {E = Any} (ask-Ensures env.aborted false kept)
              (ask-HasNoSession env.aborted))))
        λ aborted. given λ off.
          Ensures-if aborted _ _ (λ on. refuted aborted off on) λ off. Ensures-pure tt λ w p. p

  pause_collected-HasNoSession : Ensures Any (pause_collected run env) (λ done. HasNoSession) Any
  pause_collected-HasNoSession = Ensures-bind _ _ _ (anything _) λ done.
      Ensures-bind _ _ _ (Ensures-weaken (λ a w p. p) (λ w p. tt) pause_idle-HasNoSession)
        λ was_paused. Ensures-weaken (λ a w p. p) (λ w p. tt) (Keeps-Ensures (call-HasNoSession _))

  module _ (host : Host) (parse : String → Option Journal) (from_base64 : String → Bytes) where
    -- the sandbox of a command that returned is paused
    with_journal-HasNoSession :
        (rest : Action (World H) Collected)
        → Ensures Any rest (λ done. HasNoSession) Any
        → (raw : Option String)
        → Ensures Any
            (with_journal run env host parse from_base64 rest raw)
            (λ done. HasNoSession)
            Any
    with_journal-HasNoSession rest kept none = kept
    with_journal-HasNoSession rest kept (some raw) =
        Ensures-bind (λ done. Any) _ _ (anything _)
          λ done.
            Ensures-bind (λ done. HasNoSession) _ _
              (Ensures-if env.provider.can_pause _ _ (λ on. pause_collected-HasNoSession)
                λ off. refuted _ off pausable)
              λ tt. Ensures-pure done λ w p. p

    poll-HasNoSession :
        (fuel : ℕ) (box : SandboxSessionState) (deadline : ℕ)
        → Ensures Any
            (poll run env host parse from_base64 fuel box deadline)
            (λ done. HasNoSession)
            Any
    unfolding poll
    poll-HasNoSession zero box deadline = Ensures-throw _ λ w p. tt
    poll-HasNoSession (suc fuel) box deadline = first _ _ λ now.
        Ensures-if (ltb now deadline)
          (next_round run env host parse from_base64 box
            (poll run env host parse from_base64 fuel box deadline))
          (throw (out_of_time run env))
          (λ on.
            first (poll_once run env box) _
              (with_journal-HasNoSession _ (poll-HasNoSession fuel box deadline)))
          λ off. Ensures-throw (out_of_time run env) λ w p. tt

    run_command-HasNoSession :
        (fuel timeout_ms : ℕ) (id : String) (box : SandboxSessionState)
        → Ensures Any
            (run_command run env host parse from_base64 fuel timeout_ms id box)
            (λ done. HasNoSession)
            Any
    unfolding run_command
    run_command-HasNoSession fuel timeout_ms id box = first _ _ λ a. first _ _ λ a. first _ _ λ a.
        first _ _ λ a.
          first _ _ λ a. first _ _ λ a. first _ _ λ a. first _ _ λ a. poll-HasNoSession fuel box _

    in_sandbox-HasNoSession :
        (fuel timeout_ms : ℕ) (id : String) (had_state : Bool)
        → Ensures Any
            (in_sandbox run env host parse from_base64 fuel timeout_ms id had_state)
            (λ done. HasNoSession)
            Any
    in_sandbox-HasNoSession fuel timeout_ms id had_state =
        first _ _ λ a. first _ _ (run_command-HasNoSession fuel timeout_ms id)

    protected-HasNoSession :
        (body : Action (World H) Collected)
        → Ensures Any body (λ done. HasNoSession) Any
        → Ensures Any
            (protected run env host parse from_base64 body)
            (λ done. HasNoSession)
            HasNoSession
    protected-HasNoSession body eb =
        Ensures-bind (λ r. HasNoSession) _ _
          (Ensures-attempt _
            (Ensures-catching Any _ _ eb (on_failure-HasNoSession host parse from_base64)))
          λ r.
            Ensures-bind (λ done. HasNoSession) _ _ after_call-HasNoSession
              λ done. Keeps-Ensures (Keeps-of_result r)

    refuse_unavailable-HasNoSession :
        (e : Option String) → Keeps HasNoSession (refuse_unavailable run env e)
    refuse_unavailable-HasNoSession none = search keeps_rules
    refuse_unavailable-HasNoSession (some e) = search keeps_rules

    available-HasNoSession : Keeps HasNoSession (available run env)
    available-HasNoSession = search (keeps_rules, ask-HasNoSession, refuse_unavailable-HasNoSession)

    native_bash-Ensures :
        (fuel timeout_ms : ℕ) (id : String)
        → Ensures HasNoSession
            (native_bash run env host parse from_base64 fuel timeout_ms id)
            (λ done. HasNoSession)
            HasNoSession
    unfolding native_bash
    native_bash-Ensures fuel timeout_ms id =
        Ensures-bind (λ done. HasNoSession) _ _ (Keeps-Ensures available-HasNoSession)
          λ done.
            Ensures-bind (λ done. HasNoSession) _ _ (Keeps-Ensures (set_active-HasNoSession none))
              λ done. Ensures-reading _ λ w p.
                (protected-HasNoSession _
                    (in_sandbox-HasNoSession fuel timeout_ms id (is_some w.state))).after
                  w tt

-- A provider that can pause is not left with a running sandbox that the worker still holds: after a call
-- that was not aborted, whether it returned or threw at any point, the worker holds no session, when it
-- held none before.
pub native_bash-idle :
    {H : Type 0} (run : NativeHost H) (env : Surroundings) (host : Host)
    (parse : String → Option Journal) (from_base64 : String → Bytes) (fuel timeout_ms : ℕ)
    (id : String) (w : World H)
    → env.provider.can_pause ≡ true
    → ((n : ℕ) → env.aborted n ≡ false)
    → w.session ≡ none
    → (native_bash run env host parse from_base64 fuel timeout_ms id w).1.session ≡ none
native_bash-idle run env host parse from_base64 fuel timeout_ms id w pausable kept idle =
    Ensures-at (native_bash-Ensures run env pausable kept host parse from_base64 fuel timeout_ms id)
      w idle
