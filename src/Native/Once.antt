-- ===== src/Native/Once.antt =====
-- How often a native command is started, and where.
use nimplex.Prelude.{
  ℕ, ◌+◌, String, ◌≡◌, refl, sym, ◌⊎◌, inl, inr, Bool, true, false, Option, none, some, List, [],
  any, append-nil,
}
use nimplex.Store.Records.{ExecutorEvent, SandboxSessionState, Bytes}
use nimplex.Checkpoints.Steps.{Host}
use nimplex.Native.Actions.{Action, ◌>>=◌, modify}
use nimplex.Native.Keeps.{
  Keeps, keeps_rules, Keeps-bind, Keeps-unless, Keeps-of_result, Ensures, Ensures-bind,
  Ensures-reading, Ensures-reading, Ensures-weaken, Ensures-from, Keeps-Ensures, Ensures-at,
  Ensures-attempt, Ensures-catching,
}
use nimplex.Native.Host.{NativeHost, NativeHostLaws, Surroundings, World, is_dispatch, supervise}
use nimplex.Native.Session.{ask, set_active}
use nimplex.Native.Launch.{job_of}
use nimplex.Native.Journal.{Journal, Collected}
use nimplex.Metering.Usage.{is_some}
use nimplex.Native.Bash.{
  available, refuse_unavailable, poll, run_command, native_bash, in_sandbox, protected,
}
use nimplex.Native.Quiet.{Observed, ask-Quiet, set_active-Quiet, exec-Quiet}
use nimplex.Native.Rounds.{after_call-Quiet, poll-Quiet, on_failure-Quiet}
use nimplex.Native.Fit.{
  IsHeld, IsBefore, IsFit, IsAfter, HasHeldSession, HasHeldState, IsBefore-IsUpward,
  IsAfter-IsUpward, record_dispatch-Ensures, resume_session-Ensures, open_session-Ensures, before,
}
use nimplex.Native.Launched.{IsLaunched, IsLaunched-IsUpward, dispatch-IsLaunched}

module _ {H : Type 0} (run : NativeHost H) (env : Surroundings) (Good : H → Type 0)
    (laws : NativeHostLaws run Good) (host : Host) (parse : String → Option Journal)
    (from_base64 : String → Bytes) (id : String) (rs₀ : List (String × String))
    (log₀ : List ExecutorEvent) (Held : SandboxSessionState → Type 0) where
  abbrev Before : World H → Type 0
  Before = Observed run Good (IsBefore run env Good laws id rs₀ log₀ Held)

  abbrev Launched : SandboxSessionState → World H → Type 0
  Launched box = Observed run Good (IsLaunched run env Good laws id (job_of run env id) rs₀ box)

  abbrev After : World H → Type 0
  After = Observed run Good (IsAfter run env Good laws id rs₀ log₀ Held)

  abbrev Fit : SandboxSessionState → Type 0
  Fit = IsFit run env Good laws id rs₀ log₀ Held

  polled :
      (fuel timeout_ms : ℕ) (box : SandboxSessionState)
      → Keeps After (
          ask env.clock >>= λ started.
          poll run env host parse from_base64 fuel box (started + timeout_ms + 15000))
  polled fuel timeout_ms box =
      Keeps-bind _ _
        (ask-Quiet run env Good laws _ (IsAfter-IsUpward run env Good laws id rs₀ log₀ Held)
          env.clock)
        λ started.
          poll-Quiet run env Good laws _ (IsAfter-IsUpward run env Good laws id rs₀ log₀ Held) host
            parse from_base64 fuel box _

  launched_after : (box : SandboxSessionState) → Fit box → (w : World H) → Launched box w → After w
  launched_after box fit w (good, (d, inl same)) = (good, inl same)
  launched_after box fit w (good, (d, inr at)) = (good, inr (box, fit, at, d))

  -- A step between the dispatch and the end of the launch.
  launching :
      {A : Type 0} {m : Action (World H) A} (box : SandboxSessionState)
      → Fit box
      → Keeps (Launched box) m
      → Ensures (Launched box) m (λ a. Launched box) After
  launching box fit kept = Ensures-weaken (λ a w p. p) (launched_after box fit) (Keeps-Ensures kept)

  -- A step before the dispatch.
  starting :
      {A : Type 0} {m : Action (World H) A} → Keeps Before m → Ensures Before m (λ a. Before) After
  starting = before run env Good laws id rs₀ log₀ Held

  run_command-Ensures :
      (fuel timeout_ms : ℕ) (box : SandboxSessionState)
      → Fit box
      → Ensures Before
          (run_command run env host parse from_base64 fuel timeout_ms id box)
          (λ a. After)
          After
  unfolding run_command
  run_command-Ensures fuel timeout_ms box fit =
      let up = IsBefore-IsUpward run env Good laws id rs₀ log₀ Held in
      let up' = IsLaunched-IsUpward run env Good laws id (job_of run env id) rs₀ box in
      Ensures-bind _ _ _ (starting (set_active-Quiet run env Good laws _ up (some box))) λ done.
        Ensures-bind _ _ _ (starting (exec-Quiet run env Good laws _ up)) λ directory.
          Ensures-bind _ _ _ (starting (Keeps-unless _ _)) λ done.
            Ensures-bind _ _ _ (record_dispatch-Ensures run env Good laws id rs₀ log₀ Held) λ done.
              Ensures-from (λ w p. (p.0, (p.1.1, inl p.1.0)))
                (Ensures-bind _ _ _
                  (launching box fit (ask-Quiet run env Good laws _ up' env.provider.write_file))
                  λ written. Ensures-bind _ _ _ (launching box fit (Keeps-unless written _)) λ done.
                    Ensures-bind _ _ _
                      (launching box fit
                        (dispatch-IsLaunched run env Good laws id (job_of run env id) rs₀ box))
                      λ done.
                        Ensures-from (launched_after box fit)
                          (Keeps-Ensures (polled fuel timeout_ms box)))

  in_sandbox-Ensures :
      (fuel timeout_ms : ℕ) (had_state : Bool)
      → Ensures
          (λ w.
            Before w
            × HasHeldSession run env Good laws id rs₀ log₀ Held w
            × HasHeldState run env Good laws id rs₀ log₀ Held w)
          (in_sandbox run env host parse from_base64 fuel timeout_ms id had_state)
          (λ a. After)
          After
  in_sandbox-Ensures fuel timeout_ms had_state =
      Ensures-bind _ _ _ (resume_session-Ensures run env Good laws id rs₀ log₀ Held) λ done.
        Ensures-bind _ _ _ (open_session-Ensures run env Good laws id rs₀ log₀ Held had_state)
          λ box. record { after = λ w p. (run_command-Ensures fuel timeout_ms box p.0).after w p.1 }

  abbrev Start : World H → Type 0
  Start w =
      Before w
      × HasHeldSession run env Good laws id rs₀ log₀ Held w
      × HasHeldState run env Good laws id rs₀ log₀ Held w

  ask-Start : {A : Type 0} (f : ℕ → A) → Keeps Start (ask f)
  unfolding ask
  ask-Start f = record { at = λ w p. p }

  set_active-Start : (s : Option SandboxSessionState) → Keeps Start (set_active s)
  unfolding modify
  set_active-Start s = record { at = λ w p. p }

  refuse_unavailable-Start : (e : Option String) → Keeps Start (refuse_unavailable run env e)
  refuse_unavailable-Start none = search keeps_rules
  refuse_unavailable-Start (some e) = search keeps_rules

  available-Start : Keeps Start (available run env)
  available-Start = search (keeps_rules, ask-Start, refuse_unavailable-Start)

  started :
      {A : Type 0} {m : Action (World H) A} → Keeps Start m → Ensures Start m (λ a. Start) After
  started kept = Ensures-weaken (λ a w p. p) (λ w p. (p.0.0, inl p.0.1.0)) (Keeps-Ensures kept)

  protected-Ensures :
      (body : Action (World H) Collected)
      → Ensures Start body (λ a. After) After
      → Ensures Start (protected run env host parse from_base64 body) (λ a. After) After
  protected-Ensures body eb =
      let up = IsAfter-IsUpward run env Good laws id rs₀ log₀ Held in
      Ensures-bind (λ r. After) _ _
        (Ensures-attempt _ (
          Ensures-catching After _ _ eb
            λ e. Keeps-Ensures (on_failure-Quiet run env Good laws _ up host parse from_base64 e)))
        λ r.
          Keeps-Ensures
            (Keeps-bind _ _ (after_call-Quiet run env Good laws _ up) λ done. Keeps-of_result r)

  native_bash-Ensures :
      (fuel timeout_ms : ℕ)
      → Ensures Start
          (native_bash run env host parse from_base64 fuel timeout_ms id)
          (λ a. After)
          After
  unfolding native_bash
  native_bash-Ensures fuel timeout_ms =
      Ensures-bind (λ done. Start) _ _ (started available-Start)
        λ done.
          Ensures-bind (λ done. Start) _ _ (started (set_active-Start none))
            λ done. Ensures-reading _ λ w p.
              (protected-Ensures _ (in_sandbox-Ensures fuel timeout_ms (is_some w.state))).after w p

-- what a call keeps of the host, and what it may have started
called :
    {H : Type 0} (run : NativeHost H) (env : Surroundings) (host : Host)
    (parse : String → Option Journal) (from_base64 : String → Bytes) (fuel timeout_ms : ℕ)
    (id : String) (w : World H) (Good : H → Type 0) (laws : NativeHostLaws run Good)
    → Good w.host
    → Observed run Good
        (IsAfter run env Good laws id w.runs (run.read_events w.host) (IsHeld w))
        (native_bash run env host parse from_base64 fuel timeout_ms id w).1
called run env host parse from_base64 fuel timeout_ms id w Good laws good =
    Ensures-at
      (native_bash-Ensures run env Good laws host parse from_base64 id w.runs
        (run.read_events w.host) (IsHeld w) fuel timeout_ms)
      w ((good, (refl, ([], sym (append-nil _)))), (λ box e. inl e), λ box e. inr e)

-- A call leaves the host in a good state.
pub native_bash-keeps :
    {H : Type 0} (run : NativeHost H) (env : Surroundings) (host : Host)
    (parse : String → Option Journal) (from_base64 : String → Bytes) (fuel timeout_ms : ℕ)
    (id : String) (w : World H) (Good : H → Type 0)
    → NativeHostLaws run Good
    → Good w.host
    → Good (native_bash run env host parse from_base64 fuel timeout_ms id w).1.host
native_bash-keeps run env host parse from_base64 fuel timeout_ms id w Good laws good =
    (called run env host parse from_base64 fuel timeout_ms id w Good laws good).0

-- In a good state of a host whose operations keep it good and only add to the turn's log, a native command
-- is started at most once by a call, whatever the sandbox, the database and the clock
-- answer and however often its launch is sent: the runs are as they were, or one sandbox's supervisor has
-- been asked for the call's own job. Then the dispatch is in the turn's log, and a command whose dispatch
-- had been logged before the call was started only in the sandbox that the worker held when the call began.
pub native_bash-IsOnce :
    {H : Type 0} (run : NativeHost H) (env : Surroundings) (host : Host)
    (parse : String → Option Journal) (from_base64 : String → Bytes) (fuel timeout_ms : ℕ)
    (id : String) (w : World H) (Good : H → Type 0)
    → NativeHostLaws run Good
    → Good w.host
    → (((native_bash run env host parse from_base64 fuel timeout_ms id w).1.runs ≡ w.runs)
        ⊎ ((box : SandboxSessionState) × ((any (is_dispatch id) (run.read_events w.host) ≡ false)
              ⊎ IsHeld w box)
            × ((native_bash run env host parse from_base64 fuel timeout_ms id w).1.runs
                ≡ supervise (env.name box) (job_of run env id) w.runs)
            × (any (is_dispatch id) (
                  run.read_events
                    (native_bash run env host parse from_base64 fuel timeout_ms id w).1.host)
                ≡ true)))
native_bash-IsOnce run env host parse from_base64 fuel timeout_ms id w Good laws good =
    (called run env host parse from_base64 fuel timeout_ms id w Good laws good).1
