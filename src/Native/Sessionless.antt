-- ===== src/Native/Sessionless.antt =====
-- Steps after which a worker holds no session, and steps of which nothing is known.
use nimplex.Prelude.{ℕ, ◌≡◌, refl, Option, none, Result, ok, err}
use nimplex.Store.Records.{SandboxSessionState, RuntimeError}
use nimplex.Native.Actions.{Action, ◌>>=◌, modify}
use nimplex.Native.Keeps.{Keeps, Ensures, Settles, Ensures-bind}
use nimplex.Native.Host.{World}
use nimplex.Native.Session.{ask, call, set_session, set_active}

abbrev pub HasNoSession : {H : Type 0} → World H → Type 0
HasNoSession w = w.session ≡ none

abbrev pub Any : {H : Type 0} → World H → Type 0
Any w = Unit {0}

module _ {H : Type 0} where
  anything_settles :
      {A : Type 0} (r : Result RuntimeError A) (w : World H) → Settles (λ a. Any {H = H}) Any r w
  anything_settles (ok a) w = tt
  anything_settles (err e) w = tt

  pub anything :
      {A : Type 0} {P : World H → Type 0} (m : Action (World H) A) → Ensures P m (λ a. Any) Any
  anything m = record { after = λ w p. anything_settles (m w).0 (m w).1 }

  pub ask-HasNoSession : {A : Type 0} (f : ℕ → A) → Keeps HasNoSession (ask {H = H} f)
  unfolding ask
  ask-HasNoSession f = record { at = λ w p. p }

  pub call-HasNoSession :
      (op : ℕ → H → Result RuntimeError (Unit {0}) × H) → Keeps HasNoSession (call op)
  unfolding call
  call-HasNoSession op = record { at = λ w p. p }

  pub clear_session :
      {P : World H → Type 0} → Ensures P (set_session none) (λ done. HasNoSession) HasNoSession
  unfolding modify
  clear_session = record { after = λ w p. refl }

  pub set_active-HasNoSession :
      (s : Option SandboxSessionState) → Keeps HasNoSession (set_active {H = H} s)
  unfolding modify
  set_active-HasNoSession s = record { at = λ w p. p }

  -- an answer that is always the same
  pub ask-Ensures :
      {A : Type 0} {P E : World H → Type 0} (f : ℕ → A) (a : A)
      → ((n : ℕ) → f n ≡ a)
      → Ensures P (ask f) (λ b w. b ≡ a) E
  unfolding ask
  ask-Ensures f a h = record { after = λ w p. h w.tick }

  pub given :
      {A Fact : Type 0} {P : World H → Type 0} {m : Action (World H) A} {Q : A → World H → Type 0}
      {E : World H → Type 0}
      → (Fact → Ensures P m Q E)
      → Ensures (λ w. Fact × P w) m Q E
  given k = record { after = λ w p. (k p.0).after w p.1 }

  pub first :
      {A B : Type 0} {P : World H → Type 0} {Q : B → World H → Type 0} (m : Action (World H) A)
      (next : A → Action (World H) B)
      → ((a : A) → Ensures Any (next a) Q Any)
      → Ensures P (m >>= next) Q Any
  first m next en = Ensures-bind (λ a. Any) m next (anything m) en
