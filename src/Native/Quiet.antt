-- ===== src/Native/Quiet.antt =====
-- Steps that start no command: they keep what is known of the started commands and of the turn's log.
use nimplex.Prelude.{ℕ, String, subst, sym, Bool, Option, none, some, List, ◌++◌, Result}
use nimplex.Store.Records.{ExecutorEvent, SandboxSessionState, RuntimeError}
use nimplex.Metering.Usage.{SandboxTransition}
use nimplex.Native.Actions.{modify, catching}
use nimplex.Native.Keeps.{Keeps, keeps_rules}
use nimplex.Native.Host.{
  NativeHost, NativeHostLaws, IsExtending, Resumption, Surroundings, World, ExecResult,
}
use nimplex.Native.Session.{
  ask, call, set_session, set_active, set_state, discard, after_create, session_or_new,
  open_session, throw_if_aborted, transition, append_events, record_state, pause_session,
  pause_idle, after_resume, resume_into, resume_session, after_reconnect, reconnect,
}
use nimplex.Native.Launch.{answer, exec}

-- A property of the started commands and of the log, which a longer log has too.
abbrev pub IsUpward : (List (String × String) → List ExecutorEvent → Type 0) → Type 0
IsUpward P =
    (rs : List (String × String)) (es more : List ExecutorEvent) → P rs es → P rs (es ++ more)

abbrev pub Observed :
    {H : Type 0}
    → NativeHost H
    → (H → Type 0)
    → (List (String × String) → List ExecutorEvent → Type 0)
    → World H
    → Type 0
Observed run Good P w = Good w.host × P w.runs (run.read_events w.host)

module _ {H : Type 0} (run : NativeHost H) (env : Surroundings) (Good : H → Type 0)
    (laws : NativeHostLaws run Good) (P : List (String × String) → List ExecutorEvent → Type 0)
    (up : IsUpward P) where
  pub ask-Quiet : {A : Type 0} (f : ℕ → A) → Keeps (Observed run Good P) (ask f)
  unfolding ask
  ask-Quiet f = record { at = λ w p. p }

  pub call-Quiet :
      (op : ℕ → H → Result RuntimeError (Unit {0}) × H)
      → ((n : ℕ) → IsExtending run Good (op n))
      → Keeps (Observed run Good P) (call op)
  unfolding call
  call-Quiet op extends = record {
    at = λ w p.
        let (more, e) = (extends w.tick).extends w.host p.0 in
        (
          (extends w.tick).keeps w.host p.0,
          subst (λ es. P w.runs es) (sym e) (up w.runs (run.read_events w.host) more p.1),
        );
  }

  pub set_session-Quiet :
      (s : Option SandboxSessionState) → Keeps (Observed run Good P) (set_session s)
  unfolding modify
  set_session-Quiet s = record { at = λ w p. p }

  pub set_active-Quiet :
      (s : Option SandboxSessionState) → Keeps (Observed run Good P) (set_active s)
  unfolding modify
  set_active-Quiet s = record { at = λ w p. p }

  pub set_state-Quiet : (s : Option SandboxSessionState) → Keeps (Observed run Good P) (set_state s)
  unfolding modify
  set_state-Quiet s = record { at = λ w p. p }

  pub transition-Quiet :
      (t : SandboxTransition) (at : Option ℕ)
      → Keeps (Observed run Good P) (transition run env t at)
  transition-Quiet t at = call-Quiet _ (laws.sandbox_transition-extends t at)

  pub append_events-Quiet :
      (es : List ExecutorEvent) → Keeps (Observed run Good P) (append_events run env es)
  append_events-Quiet es = call-Quiet _ (laws.append_events-extends es)

  pub assert_active-Quiet : Keeps (Observed run Good P) (call run.assert_active)
  assert_active-Quiet = call-Quiet _ laws.assert_active-extends

  pub ruleset quiet_rules = (
    keeps_rules, ask-Quiet, set_session-Quiet, set_active-Quiet, set_state-Quiet, transition-Quiet,
    append_events-Quiet, assert_active-Quiet,
  )

  pub throw_if_aborted-Quiet : Keeps (Observed run Good P) (throw_if_aborted run env)
  throw_if_aborted-Quiet = search quiet_rules

  pause_session-Quiet :
      (s : Option SandboxSessionState) → Keeps (Observed run Good P) (pause_session run env s)
  pause_session-Quiet none = search quiet_rules
  pause_session-Quiet (some s) = search quiet_rules

  pub pause_idle-Quiet : Keeps (Observed run Good P) (pause_idle run env)
  unfolding pause_idle
  pause_idle-Quiet = search (quiet_rules, pause_session-Quiet)

  after_resume-Quiet :
      (s : SandboxSessionState) (at : ℕ) (r : Resumption)
      → Keeps (Observed run Good P) (after_resume run env s at r)
  after_resume-Quiet s at Resumption.resumed = search quiet_rules
  after_resume-Quiet s at Resumption.missing = search quiet_rules
  after_resume-Quiet s at Resumption.failed = search quiet_rules

  pub resume_into-Quiet :
      (session state : Option SandboxSessionState)
      → Keeps (Observed run Good P) (resume_into run env session state)
  resume_into-Quiet none none = search quiet_rules
  resume_into-Quiet none (some s) = search (quiet_rules, after_resume-Quiet)
  resume_into-Quiet (some t) state = search quiet_rules

  pub resume_session-Quiet : Keeps (Observed run Good P) (resume_session run env)
  unfolding resume_session
  resume_session-Quiet = search (quiet_rules, resume_into-Quiet)

  after_reconnect-Quiet :
      (s : SandboxSessionState) (at : ℕ) (r : Resumption)
      → Keeps (Observed run Good P) (after_reconnect run env s at r)
  after_reconnect-Quiet s at Resumption.resumed = search quiet_rules
  after_reconnect-Quiet s at Resumption.missing = search quiet_rules
  after_reconnect-Quiet s at Resumption.failed = search quiet_rules

  pub reconnect-Quiet :
      (s : SandboxSessionState) → Keeps (Observed run Good P) (reconnect run env s)
  unfolding reconnect
  reconnect-Quiet s = search (quiet_rules, after_reconnect-Quiet, throw_if_aborted-Quiet)

  answer-Quiet : (r : Option ExecResult) → Keeps (Observed run Good P) (answer run env r)
  answer-Quiet none = search quiet_rules
  answer-Quiet (some r) = search quiet_rules

  pub exec-Quiet : Keeps (Observed run Good P) (exec run env)
  exec-Quiet = search (quiet_rules, answer-Quiet)

  discard-Quiet :
      (s : SandboxSessionState) (at : ℕ) (e : RuntimeError)
      → Keeps (Observed run Good P) (discard run env s at e)
  discard-Quiet s at e = search (quiet_rules, call-Quiet, laws.sandbox_discarded-extends)

  record_state-Quiet :
      (s : SandboxSessionState) (reset : Bool) (at : ℕ)
      → Keeps (Observed run Good P) (record_state run env s reset at)
  record_state-Quiet s reset at = search (quiet_rules, call-Quiet, laws.record_state-extends)

  pub recorded-Quiet :
      (s : SandboxSessionState) (reset : Bool) (at : ℕ)
      → Keeps
          (Observed run Good P)
          (catching (record_state run env s reset at) (discard run env s at))
  recorded-Quiet s reset at = search (quiet_rules, discard-Quiet, record_state-Quiet)

  after_create-Quiet :
      (id : String) (had_state : Bool) (at : ℕ) (s : Option SandboxSessionState)
      → Keeps (Observed run Good P) (after_create run env id had_state at s)
  after_create-Quiet id had_state at none = search quiet_rules
  after_create-Quiet id had_state at (some s) = search (quiet_rules, recorded-Quiet)

  session_or_new-Quiet :
      (id : String) (had_state : Bool) (s : Option SandboxSessionState)
      → Keeps (Observed run Good P) (session_or_new run env id had_state s)
  session_or_new-Quiet id had_state (some s) = search quiet_rules
  session_or_new-Quiet id had_state none = search (quiet_rules, after_create-Quiet)

  pub open_session-Quiet :
      (id : String) (had_state : Bool)
      → Keeps (Observed run Good P) (open_session run env id had_state)
  unfolding open_session
  open_session-Quiet id had_state = search (quiet_rules, session_or_new-Quiet)
