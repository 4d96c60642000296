-- ===== src/Native/Launched.antt =====
-- The launch of a command: however often it is sent, the sandbox starts the command once.
use nimplex.Prelude.{
  String, ◌≡◌, refl, ap, ◌⊎◌, inl, inr, Bool, true, false, List, [], ◌∷◌, ◌++◌, any, any-append,
  ◌∙◌, eq_refl, if◌then◌else◌, arith,
}
use nimplex.Store.Records.{ExecutorEvent, SandboxSessionState}
use nimplex.Native.Actions.{modify}
use nimplex.Native.Keeps.{Keeps, keeps_rules, Keeps-bind}
use nimplex.Native.Host.{NativeHost, NativeHostLaws, Surroundings, is_dispatch, is_run, supervise}
use nimplex.Native.Launch.{start_supervisor, exec_launch, launch_again, dispatch}
use nimplex.Native.Quiet.{IsUpward, Observed, reconnect-Quiet, exec-Quiet}

abbrev pub IsDispatched : String → List ExecutorEvent → Type 0
IsDispatched id es = any (is_dispatch id) es ≡ true

pub any-longer :
    (id : String) (es more : List ExecutorEvent) → IsDispatched id es → IsDispatched id (es ++ more)
any-longer id es more h = rw (any-append, h) refl

pub any-shorter :
    (id : String) (es more : List ExecutorEvent)
    → any (is_dispatch id) (es ++ more) ≡ false
    → any (is_dispatch id) es ≡ false
any-shorter id es more h = ground (arith, any-append (is_dispatch id) es more, h)

-- A second launch in the same sandbox leaves the runs as they are.
is_run_refl : (box job : String) → is_run box job (box, job) ≡ true
is_run_refl box job = rw (eq_refl box, eq_refl job) refl

pub any_last :
    {A : Type 0} (p : A → Bool) (rs : List A) (r : A) → p r ≡ true → any p (rs ++ r ∷ []) ≡ true
any_last p rs r h = ground (arith, any-append p rs (r ∷ []), h)

supervise_present :
    (box job : String) (rs : List (String × String))
    → any (is_run box job) rs ≡ true
    → supervise box job rs ≡ rs
unfolding supervise
supervise_present box job rs h = rw h refl

supervise_runs :
    (box job : String) (rs : List (String × String))
    → any (is_run box job) (supervise box job rs) ≡ true
unfolding supervise
supervise_runs box job rs =
    ground (arith, any_last (is_run box job) rs (box, job) (is_run_refl box job))

supervise_twice :
    (box job : String) (rs : List (String × String))
    → supervise box job (supervise box job rs) ≡ supervise box job rs
supervise_twice box job rs = supervise_present box job _ (supervise_runs box job rs)

module _ {H : Type 0} (run : NativeHost H) (env : Surroundings) (Good : H → Type 0)
    (laws : NativeHostLaws run Good) (id job : String) (rs₀ : List (String × String)) where
  -- nothing, or the command, has been started in `box`, and its dispatch is logged
  abbrev pub IsLaunched : SandboxSessionState → List (String × String) → List ExecutorEvent → Type 0
  IsLaunched box rs es = IsDispatched id es × ((rs ≡ rs₀) ⊎ (rs ≡ supervise (env.name box) job rs₀))

  pub IsLaunched-IsUpward : (box : SandboxSessionState) → IsUpward (IsLaunched box)
  IsLaunched-IsUpward box rs es more (d, at) = (any-longer id es more d, at)

  supervised :
      (box : SandboxSessionState) (b : Bool) (rs : List (String × String)) (es : List ExecutorEvent)
      → IsLaunched box rs es
      → IsLaunched box (if b then supervise (env.name box) job rs else rs) es
  supervised box false rs es h = h
  supervised box true rs es (d, inl same) = (d, inr (ap (supervise (env.name box) job) same))
  supervised box true rs es (d, inr at) =
      (d, inr (ap (supervise (env.name box) job) at ∙ supervise_twice (env.name box) job rs₀))

  start_supervisor-IsLaunched :
      (box : SandboxSessionState)
      → Keeps (Observed run Good (IsLaunched box)) (start_supervisor run env box job)
  unfolding modify
  start_supervisor-IsLaunched box = record {
    at = λ w p.
        (p.0, supervised box (env.provider.reaches w.tick) w.runs (run.read_events w.host) p.1);
  }

  exec_launch-IsLaunched :
      (box : SandboxSessionState)
      → Keeps (Observed run Good (IsLaunched box)) (exec_launch run env box job)
  exec_launch-IsLaunched box =
      Keeps-bind _ _ (start_supervisor-IsLaunched box)
        λ done. exec-Quiet run env Good laws (IsLaunched box) (IsLaunched-IsUpward box)

  launch_again-IsLaunched :
      (box : SandboxSessionState)
      → Keeps (Observed run Good (IsLaunched box)) (launch_again run env box job)
  launch_again-IsLaunched box =
      Keeps-bind _ _
        (reconnect-Quiet run env Good laws (IsLaunched box) (IsLaunched-IsUpward box) box)
        λ done. exec_launch-IsLaunched box

  pub dispatch-IsLaunched :
      (box : SandboxSessionState)
      → Keeps (Observed run Good (IsLaunched box)) (dispatch run env box job)
  unfolding dispatch
  dispatch-IsLaunched box = search (keeps_rules, exec_launch-IsLaunched, launch_again-IsLaunched)
