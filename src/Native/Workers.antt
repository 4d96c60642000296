-- ===== src/Native/Workers.antt =====
-- The workers of one run, one after another: what their native commands have started in its sandboxes.
use nimplex.Prelude.{
  ℕ, ◌+◌, ◌≤◌, String, ◌≡◌, refl, subst, ◌⊎◌, inl, inr, Bool, true, false, Option, List, [], ◌∷◌,
  ◌++◌, any, eq_iff, if◌then◌else◌, arith,
}
use nimplex.Store.Records.{Bytes, SandboxSessionState}
use nimplex.Checkpoints.Steps.{Host}
use nimplex.Native.Host.{NativeHost, NativeHostLaws, Surroundings, World, is_run, supervise}
use nimplex.Native.Journal.{Journal}
use nimplex.Native.Bash.{native_bash}
use nimplex.Native.Once.{native_bash-IsOnce, native_bash-keeps}

-- The good states of the turn's host, and the sandboxes' runs, that calls of `native_bash` reach, by any
-- worker with variables and surroundings of its own; between calls the rest of the worker changes the
-- host. A worker that stops in the middle is one whose further requests fail.
pub data Reaches {H : Type 0} (run : NativeHost H) (Good : H → Type 0) (host : Host)
    (parse : String → Option Journal) (from_base64 : String → Bytes)
    : H → List (String × String) → Type 0 where
  begun : (h : H) → Good h → Reaches run Good host parse from_base64 h []
  moved :
      {h : H} {rs : List (String × String)} (h' : H)
      → Good h'
      → Reaches run Good host parse from_base64 h rs
      → Reaches run Good host parse from_base64 h' rs
  called :
      (env : Surroundings) (fuel timeout_ms : ℕ) (id : String) (w : World H)
      → Reaches run Good host parse from_base64 w.host w.runs
      → Reaches run Good host parse from_base64
          (native_bash run env host parse from_base64 fuel timeout_ms id w).1.host
          (native_bash run env host parse from_base64 fuel timeout_ms id w).1.runs

-- how often a job has been started in a sandbox
unfoldable pub starts : String → String → List (String × String) → ℕ
starts box job [] = 0
starts box job (r ∷ rs) =
    let rest = starts box job rs in if is_run box job r then 1 + rest else rest

starts-last :
    (box job : String) (rs : List (String × String)) (r : String × String)
    → starts box job (rs ++ r ∷ []) ≡ starts box job rs + (if is_run box job r then 1 else 0)
unfolding starts
starts-last box job [] r = ground arith
starts-last box job (s ∷ rs) r = ground (arith, starts-last box job rs r)

starts-none :
    (box job : String) (rs : List (String × String))
    → any (is_run box job) rs ≡ false
    → starts box job rs ≡ 0
unfolding starts
starts-none box job [] h = refl
starts-none box job (r ∷ rs) h = ground (arith, starts-none box job rs)

same_run :
    (box job box' job' : String) → is_run box job (box', job') ≡ true → (box' ≡ box) × (job' ≡ job)
same_run box job box' job' h =
    ((eq_iff box' box).0 (ground (arith, h)), (eq_iff job' job).0 (ground (arith, h)))

-- A start is of a job that the sandbox had not started.
starts-new :
    (box job box' job' : String) (rs : List (String × String)) (b : Bool)
    → is_run box job (box', job') ≡ b
    → any (is_run box' job') rs ≡ false
    → starts box job rs ≤ 1
    → starts box job rs + (if b then 1 else 0) ≤ 1
starts-new box job box' job' rs false e fresh h = omega arith
starts-new box job box' job' rs true e fresh h =
    let (same_box, same_job) = same_run box job box' job' e in
    let gone : any (is_run box job) rs ≡ false =
      subst (λ b. any (is_run b job) rs ≡ false) same_box
        (subst (λ j. any (is_run box' j) rs ≡ false) same_job fresh) in
    omega (arith, starts-none box job rs gone)

supervised-starts :
    (box job box' job' : String) (rs : List (String × String)) (b : Bool)
    → any (is_run box' job') rs ≡ b
    → starts box job rs ≤ 1
    → starts box job (if b then rs else rs ++ (box', job') ∷ []) ≤ 1
supervised-starts box job box' job' rs true e h = h
supervised-starts box job box' job' rs false e h =
    rw (starts-last box job rs (box', job')) (starts-new box job box' job' rs _ refl e h)

supervise-starts :
    (box job box' job' : String) (rs : List (String × String))
    → starts box job rs ≤ 1
    → starts box job (supervise box' job' rs) ≤ 1
unfolding supervise
supervise-starts box job box' job' rs h = supervised-starts box job box' job' rs _ refl h

-- What a call leaves, by what it has started.
called-starts :
    {A B : SandboxSessionState → Type 0} (env : Surroundings) (box job job' : String)
    (rs rs' : List (String × String))
    → ((rs' ≡ rs)
        ⊎ ((s : SandboxSessionState) × A s × (rs' ≡ supervise (env.name s) job' rs) × B s))
    → starts box job rs ≤ 1
    → starts box job rs' ≤ 1
called-starts env box job job' rs rs' (inl same) h = rw same h
called-starts env box job job' rs rs' (inr (s, fit, e, logged)) h =
    rw e (supervise-starts box job (env.name s) job' rs h)

reached :
    {H : Type 0} (run : NativeHost H) (Good : H → Type 0) (host : Host)
    (parse : String → Option Journal) (from_base64 : String → Bytes) {h : H}
    {rs : List (String × String)} (box job : String)
    → NativeHostLaws run Good
    → Reaches run Good host parse from_base64 h rs
    → Good h × (starts box job rs ≤ 1)
reached run Good host parse from_base64 box job laws (begun h good) =
    (good, unfold starts in omega arith)
reached run Good host parse from_base64 box job laws (moved h' good before) =
    (good, (reached run Good host parse from_base64 box job laws before).1)
reached run Good host parse from_base64 box job laws (called env fuel timeout_ms id w before) =
    let (good, few) = reached run Good host parse from_base64 box job laws before in
    (
      native_bash-keeps run env host parse from_base64 fuel timeout_ms id w Good laws good,
      called-starts env box job _ w.runs _
          (native_bash-IsOnce run env host parse from_base64 fuel timeout_ms id w Good laws good)
          few,
    )

-- Over any calls of any workers, aborted, failing, retried or taken over, on a host whose operations keep
-- it good and only add to the turn's log, the command of a job is started at most once in a sandbox.
pub Reaches-once :
    {H : Type 0} (run : NativeHost H) (Good : H → Type 0) (host : Host)
    (parse : String → Option Journal) (from_base64 : String → Bytes) {h : H}
    {rs : List (String × String)} (box job : String)
    → NativeHostLaws run Good
    → Reaches run Good host parse from_base64 h rs
    → starts box job rs ≤ 1
Reaches-once run Good host parse from_base64 box job laws r =
    (reached run Good host parse from_base64 box job laws r).1
