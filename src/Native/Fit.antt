-- ===== src/Native/Fit.antt =====
-- The sandbox that a native command gets: one that its worker held, unless the command is new.
use nimplex.Prelude.{
  ℕ, suc, String, ◌≡◌, refl, ap, subst, ◌⊎◌, inl, inr, Bool, true, false, not, Option, none, some,
  List, [], ◌∷◌, ◌++◌, any, append_assoc, eq_refl, Result, ok, err, arith,
}
use nimplex.Store.Records.{ExecutorEvent, SandboxSessionState, RuntimeError}
use mathlib.Core.Option.{some-injective}
use nimplex.Store.Members.{get_member}
use nimplex.Native.Actions.{Action, modify, unless, reading}
use nimplex.Native.Keeps.{
  Keeps, keeps_rules, Keeps-and, Ensures, Ensures-bind, Ensures-pure, Ensures-throw,
  Ensures-reading, Ensures-weaken, Ensures-and, Ensures-from, Keeps-Ensures, Settles,
}
use nimplex.Native.Host.{
  NativeHost, NativeHostLaws, Resumption, Surroundings, World, is_dispatch, supervise,
}
use nimplex.Native.Session.{
  ask, call, set_session, resume_into, after_resume, resume_session, refuse_replay, after_create,
  session_or_new, open_session,
}
use nimplex.Native.Launch.{record_dispatch, dispatch_event, job_of}
use nimplex.Native.Quiet.{
  IsUpward, Observed, ask-Quiet, set_session-Quiet, resume_into-Quiet, open_session-Quiet,
  recorded-Quiet,
}
use nimplex.Native.Launched.{IsDispatched, any-longer, any-shorter, any_last}

-- The sandbox that a worker's closure holds when the call begins.
abbrev pub IsHeld : {H : Type 0} → World H → SandboxSessionState → Type 0
IsHeld w box = (w.session ≡ some box) ⊎ (w.state ≡ some box)

module _ {H : Type 0} (run : NativeHost H) (env : Surroundings) (Good : H → Type 0)
    (laws : NativeHostLaws run Good) (id : String) (rs₀ : List (String × String))
    (log₀ : List ExecutorEvent) (Held : SandboxSessionState → Type 0) where
  -- nothing has been started yet
  abbrev pub IsBefore : List (String × String) → List ExecutorEvent → Type 0
  IsBefore rs es = (rs ≡ rs₀) × ((more : List ExecutorEvent) × (es ≡ log₀ ++ more))

  -- what makes a sandbox fit for the command: it was held, or the command was never dispatched
  abbrev pub IsFit : SandboxSessionState → Type 0
  IsFit box = (any (is_dispatch id) log₀ ≡ false) ⊎ Held box

  abbrev pub IsAfter : List (String × String) → List ExecutorEvent → Type 0
  IsAfter rs es =
      (rs ≡ rs₀)
      ⊎ ((box : SandboxSessionState) × IsFit box
          × (rs ≡ supervise (env.name box) (job_of run env id) rs₀)
          × IsDispatched id es)

  pub IsBefore-IsUpward : IsUpward IsBefore
  IsBefore-IsUpward rs es more (same, (new, e)) = (same, (new ++ more, rw (e, append_assoc) refl))

  pub IsAfter-IsUpward : IsUpward IsAfter
  IsAfter-IsUpward rs es more (inl same) = inl same
  IsAfter-IsUpward rs es more (inr (box, fit, at, d)) = inr (box, fit, at, any-longer id es more d)

  -- the closure's variables hold sandboxes that are held
  abbrev pub HasHeldSession : World H → Type 0
  HasHeldSession w = (box : SandboxSessionState) → w.session ≡ some box → Held box

  abbrev pub HasHeldState : World H → Type 0
  HasHeldState w = (box : SandboxSessionState) → w.state ≡ some box → Held box

  ask-HasHeldSession : {A : Type 0} (f : ℕ → A) → Keeps HasHeldSession (ask f)
  unfolding ask
  ask-HasHeldSession f = record { at = λ w p. p }

  call-HasHeldSession :
      (op : ℕ → H → Result RuntimeError (Unit {0}) × H) → Keeps HasHeldSession (call op)
  unfolding call
  call-HasHeldSession op = record { at = λ w p. p }

  set_none-HasHeldSession : Keeps HasHeldSession (set_session none)
  unfolding modify
  set_none-HasHeldSession = record { at = λ w p box e. cc }

  set_some-HasHeldSession :
      (box : SandboxSessionState) → Held box → Keeps HasHeldSession (set_session (some box))
  unfolding modify
  set_some-HasHeldSession box held = record {
    at = λ w p other e. subst Held (some-injective _ _ e) held;
  }

  refused_unless :
      (b : Bool) (e : RuntimeError) (w : World H)
      → (b ≡ true → any (is_dispatch id) log₀ ≡ false)
      → Settles {W = World H} {A = Unit {0}}
          (λ done w'. any (is_dispatch id) log₀ ≡ false)
          (λ w'. Unit {0})
          (unless b e w).0
          (unless b e w).1
  unfolding unless
  refused_unless true e w h = h refl
  refused_unless false e w h = tt

  not_dispatched :
      (es : List ExecutorEvent)
      → (more : List ExecutorEvent) × (es ≡ log₀ ++ more)
      → not (any (is_dispatch id) es) ≡ true
      → any (is_dispatch id) log₀ ≡ false
  not_dispatched es (more, e) h =
      any-shorter id log₀ more (ground (arith, ap (any (is_dispatch id)) e, h))

  refuse_replay-Ensures :
      Ensures
        (Observed run Good IsBefore)
        (refuse_replay run env id)
        (λ done w. any (is_dispatch id) log₀ ≡ false)
        (λ w. Unit {0})
  unfolding reading
  refuse_replay-Ensures = record {
    after = λ w p. refused_unless _ _ w (not_dispatched (run.read_events w.host) p.1.1);
  }

  dispatch_event-IsDispatch : (g : ℕ) → is_dispatch id (dispatch_event run env id g) ≡ true
  unfolding get_member
  dispatch_event-IsDispatch g = rw (eq_refl id) refl

  dispatch_settles :
      (g : ℕ) (w : World H) (r : Result RuntimeError (Unit {0})) (h' : H)
      → run.append_events (dispatch_event run env id g ∷ []) w.tick w.host ≡ (r, h')
      → Good w.host
      → Good h'
      → w.runs ≡ rs₀
      → Settles {W = World H} {A = Unit {0}}
          (λ done. Observed run Good λ rs es. (rs ≡ rs₀) × IsDispatched id es)
          (Observed run Good IsAfter)
          r
          (record w { host = h'; tick = suc w.tick })
  dispatch_settles g w (ok u) h' e good good' same = (
    good',
    (
      same,
      rw (laws.append_events-appends _ w.tick w.host h' good e)
          (any_last (is_dispatch id) _ _ (dispatch_event-IsDispatch g)),
    ),
  )
  dispatch_settles g w (err thrown) h' e good good' same = (good', inl same)

  pub record_dispatch-Ensures :
      Ensures
        (Observed run Good IsBefore)
        (record_dispatch run env id)
        (λ done. Observed run Good λ rs es. (rs ≡ rs₀) × IsDispatched id es)
        (Observed run Good IsAfter)
  unfolding reading call
  record_dispatch-Ensures = record {
    after = λ w p.
        dispatch_settles _ w _ _ refl p.0 ((laws.append_events-extends _ w.tick).keeps w.host p.0)
          p.1.0;
  }

  after_resume-HasHeldSession :
      (s : SandboxSessionState) (at : ℕ) (r : Resumption)
      → Held s
      → Keeps HasHeldSession (after_resume run env s at r)
  after_resume-HasHeldSession s at Resumption.failed held = search keeps_rules
  after_resume-HasHeldSession s at Resumption.missing held =
      search (keeps_rules, set_none-HasHeldSession, call-HasHeldSession)
  after_resume-HasHeldSession s at Resumption.resumed held =
      search (keeps_rules, set_some-HasHeldSession, call-HasHeldSession)

  resume_into-HasHeldSession :
      (session state : Option SandboxSessionState)
      → ((box : SandboxSessionState) → state ≡ some box → Held box)
      → Keeps HasHeldSession (resume_into run env session state)
  resume_into-HasHeldSession none none h = search keeps_rules
  resume_into-HasHeldSession none (some s) h =
      search (keeps_rules, ask-HasHeldSession, after_resume-HasHeldSession, h s refl)
  resume_into-HasHeldSession (some t) state h = search keeps_rules

  pub resume_session-Ensures :
      Ensures
        (λ w. Observed run Good IsBefore w × HasHeldSession w × HasHeldState w)
        (resume_session run env)
        (λ done w. Observed run Good IsBefore w × HasHeldSession w)
        (Observed run Good IsAfter)
  unfolding resume_session
  resume_session-Ensures = Ensures-reading _ λ w p.
      (Ensures-weaken (λ done w p. p) (λ w p. (p.0.0, inl p.0.1.0))
          (Keeps-Ensures (
            Keeps-and
              (resume_into-Quiet run env Good laws IsBefore IsBefore-IsUpward w.session w.state)
              (resume_into-HasHeldSession w.session w.state p.2)))).after
        w (p.0, p.1)

  -- A quiet step before the launch.
  pub before :
      {A : Type 0} {m : Action (World H) A}
      → Keeps (Observed run Good IsBefore) m
      → Ensures
          (Observed run Good IsBefore)
          m
          (λ a. Observed run Good IsBefore)
          (Observed run Good IsAfter)
  before kept = Ensures-weaken (λ a w p. p) (λ w p. (p.0, inl p.1.0)) (Keeps-Ensures kept)

  anyway :
      {A : Type 0} {m : Action (World H) A}
      → Keeps (Observed run Good IsBefore) m
      → Ensures (Observed run Good IsBefore) m (λ a. Observed run Good IsBefore) (λ w. Unit {0})
  anyway kept = Ensures-weaken (λ a w p. p) (λ w p. tt) (Keeps-Ensures kept)

  after_create-IsFit :
      (had_state : Bool) (at : ℕ) (s : Option SandboxSessionState)
      → Ensures
          (Observed run Good IsBefore)
          (after_create run env id had_state at s)
          (λ box w. IsFit box)
          (λ w. Unit {0})
  after_create-IsFit had_state at none = Ensures-throw _ λ w p. tt
  after_create-IsFit had_state at (some s) =
      Ensures-bind _ _ _
        (anyway (recorded-Quiet run env Good laws IsBefore IsBefore-IsUpward s had_state at))
        λ done.
          Ensures-bind _ _ _
            (anyway (set_session-Quiet run env Good laws IsBefore IsBefore-IsUpward (some s)))
            λ done. Ensures-bind _ _ _ refuse_replay-Ensures λ done. Ensures-pure s λ w new. inl new

  session_or_new-IsFit :
      (had_state : Bool) (s : Option SandboxSessionState)
      → ((box : SandboxSessionState) → s ≡ some box → Held box)
      → Ensures
          (Observed run Good IsBefore)
          (session_or_new run env id had_state s)
          (λ box w. IsFit box)
          (λ w. Unit {0})
  session_or_new-IsFit had_state (some s) h = Ensures-pure s λ w p. inr (h s refl)
  session_or_new-IsFit had_state none h =
      Ensures-bind _ _ _ (anyway (ask-Quiet run env Good laws IsBefore IsBefore-IsUpward env.clock))
        λ at.
          Ensures-bind _ _ _
            (anyway (ask-Quiet run env Good laws IsBefore IsBefore-IsUpward env.provider.create))
            λ s. after_create-IsFit had_state at s

  open_session-IsFit :
      (had_state : Bool)
      → Ensures
          (λ w. Observed run Good IsBefore w × HasHeldSession w)
          (open_session run env id had_state)
          (λ box w. IsFit box)
          (λ w. Unit {0})
  unfolding open_session
  open_session-IsFit had_state =
      Ensures-reading _ λ w p. (session_or_new-IsFit had_state w.session p.1).after w p.0

  pub open_session-Ensures :
      (had_state : Bool)
      → Ensures
          (λ w. Observed run Good IsBefore w × HasHeldSession w)
          (open_session run env id had_state)
          (λ box w. IsFit box × Observed run Good IsBefore w)
          (Observed run Good IsAfter)
  open_session-Ensures had_state =
      Ensures-weaken (λ box w p. p) (λ w p. (p.0, inl p.1.0))
        (Ensures-from (λ w p. (p, p.0))
          (Ensures-and (open_session-IsFit had_state)
            (open_session-Quiet run env Good laws IsBefore IsBefore-IsUpward id had_state)))
