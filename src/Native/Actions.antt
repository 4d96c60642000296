-- ===== src/Native/Actions.antt =====
-- Computations that change a state and may throw; what had changed before a throw stays.
use nimplex.Prelude.{Bool, true, false, Result, ok, err}
use nimplex.Store.Records.{RuntimeError}

abbrev pub Action : Type 0 → Type 0 → Type 0
Action W A = W → Result RuntimeError A × W

module _ {W A : Type 0} where
  unfoldable pub pure : A → Action W A
  pure a w = (ok a, w)

  unfoldable pub throw : RuntimeError → Action W A
  throw e w = (err e, w)

  unfoldable pub of_result : Result RuntimeError A → Action W A
  of_result r w = (r, w)

  -- a computation that looks at the state first
  unfoldable pub reading : (W → Action W A) → Action W A
  reading m w = m w w

  abbrev pub or_handle : Result RuntimeError A → (RuntimeError → Action W A) → Action W A
  or_handle (ok a) handle = λ w. (ok a, w)
  or_handle (err e) handle = handle e

  -- `try { … } catch (error) { … }`
  unfoldable pub catching : Action W A → (RuntimeError → Action W A) → Action W A
  catching m handle w = let (r, w') = m w in or_handle r handle w'

  -- how a computation settles, as a value
  unfoldable pub attempt : Action W A → Action W (Result RuntimeError A)
  attempt m w = let (r, w') = m w in (ok r, w')

module _ {W : Type 0} where
  unfoldable pub modify : (W → W) → Action W (Unit {0})
  modify f w = (ok tt, f w)

  unfoldable pub unless : Bool → RuntimeError → Action W (Unit {0})
  unless true e w = (ok tt, w)
  unless false e w = (err e, w)

module _ {W A B : Type 0} where
  abbrev pub continue : Result RuntimeError A → (A → Action W B) → Action W B
  continue (ok a) next = next a
  continue (err e) next = λ w. (err e, w)

  infixl 5 ◌>>=◌
  -- opening this opens the other steps too
  unfoldable pub ◌>>=◌ : Action W A → (A → Action W B) → Action W B
  unfolding pure throw of_result reading catching attempt modify unless
  (m >>= next) w = let (r, w') = m w in continue r next w'

infixl 5 ◌>>◌
abbrev pub ◌>>◌ : {W B : Type 0} → Action W (Unit {0}) → Action W B → Action W B
first >> second = first >>= λ done. second
