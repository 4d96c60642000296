-- ===== src/Native/Keeps.antt =====
-- What a computation keeps and ensures, whether it returns or throws: one rule for each way to build one.
use nimplex.Prelude.{◌≡◌, refl, Bool, true, false, if◌then◌else◌, Result, ok, err}
use nimplex.Store.Records.{RuntimeError}
use nimplex.Native.Actions.{
  Action, pure, throw, of_result, reading, catching, attempt, unless, ◌>>=◌, continue, or_handle,
}

abbrev pub Settles :
    {W A : Type 0} → (A → W → Type 0) → (W → Type 0) → Result RuntimeError A → W → Type 0
Settles Q E (ok a) w = Q a w
Settles Q E (err e) w = E w

-- From a state of `P`, `m` returns with `Q` or throws with `E`.
pub record Ensures {W A : Type 0} (P : W → Type 0) (m : Action W A) (Q : A → W → Type 0)
    (E : W → Type 0) : Type 0 where
  pub after : (w : W) → P w → Settles Q E (m w).0 (m w).1

module _ {W A : Type 0} {Q : A → W → Type 0} {E : W → Type 0} where
  after_handle :
      (F : W → Type 0) (r : Result RuntimeError A) (w : W) (handle : RuntimeError → Action W A)
      → ((e : RuntimeError) → Ensures F (handle e) Q E)
      → Settles Q F r w
      → Settles Q E (or_handle r handle w).0 (or_handle r handle w).1
  after_handle F (ok a) w handle hh q = q
  after_handle F (err e) w handle hh f = (hh e).after w f

module _ {W A : Type 0} {P : W → Type 0} {Q : A → W → Type 0} {E : W → Type 0} where
  pub Ensures-pure : (a : A) → ((w : W) → P w → Q a w) → Ensures P (pure a) Q E
  unfolding pure
  Ensures-pure a h = record { after = h }

  pub Ensures-throw : (e : RuntimeError) → ((w : W) → P w → E w) → Ensures P (throw {A = A} e) Q E
  unfolding throw
  Ensures-throw e h = record { after = h }

  pub Ensures-reading :
      (m : W → Action W A)
      → ((w : W) → P w → Settles Q E (m w w).0 (m w w).1)
      → Ensures P (reading m) Q E
  unfolding reading
  Ensures-reading m h = record { after = h }

  pub Ensures-if :
      (b : Bool) (m n : Action W A)
      → (b ≡ true → Ensures P m Q E)
      → (b ≡ false → Ensures P n Q E)
      → Ensures P (if b then m else n) Q E
  Ensures-if true m n km kn = km refl
  Ensures-if false m n km kn = kn refl

  pub Ensures-catching :
      (F : W → Type 0) (m : Action W A) (handle : RuntimeError → Action W A)
      → Ensures P m Q F
      → ((e : RuntimeError) → Ensures F (handle e) Q E)
      → Ensures P (catching m handle) Q E
  unfolding catching
  Ensures-catching F m handle hm hh = record {
    after = λ w p. after_handle F (m w).0 (m w).1 handle hh (hm.after w p);
  }

module _ {W A B : Type 0} {Q : B → W → Type 0} {E : W → Type 0} where
  after_continue :
      (M : A → W → Type 0) (r : Result RuntimeError A) (w : W) (next : A → Action W B)
      → ((a : A) → Ensures (M a) (next a) Q E)
      → Settles M E r w
      → Settles Q E (continue r next w).0 (continue r next w).1
  after_continue M (ok a) w next hn p = (hn a).after w p
  after_continue M (err e) w next hn p = p

module _ {W A B : Type 0} {P : W → Type 0} {Q : B → W → Type 0} {E : W → Type 0} where
  pub Ensures-bind :
      (M : A → W → Type 0) (m : Action W A) (next : A → Action W B)
      → Ensures P m M E
      → ((a : A) → Ensures (M a) (next a) Q E)
      → Ensures P (m >>= next) Q E
  unfolding ◌>>=◌
  Ensures-bind M m next hm hn = record {
    after = λ w p. after_continue M (m w).0 (m w).1 next hn (hm.after w p);
  }

module _ {W A : Type 0} (P : W → Type 0) where
  settled : (r : Result RuntimeError A) (w : W) → Settles (λ a. P) P r w → P w
  settled (ok a) w p = p
  settled (err e) w p = p

  settles : (r : Result RuntimeError A) (w : W) → P w → Settles (λ a. P) P r w
  settles (ok a) w p = p
  settles (err e) w p = p

-- `m` keeps `P`, whether it returns or throws.
pub record Keeps {W A : Type 0} (P : W → Type 0) (m : Action W A) : Type 0 where
  pub at : (w : W) → P w → P (m w).1

module _ {W A : Type 0} {P : W → Type 0} where
  pub Keeps-pure : (a : A) → Keeps P (pure a)
  unfolding pure
  Keeps-pure a = record { at = λ w p. p }

  pub Keeps-throw : (e : RuntimeError) → Keeps P (throw {A = A} e)
  unfolding throw
  Keeps-throw e = record { at = λ w p. p }

  pub Keeps-of_result : (r : Result RuntimeError A) → Keeps P (of_result r)
  unfolding of_result
  Keeps-of_result r = record { at = λ w p. p }

  pub Keeps-reading : (m : W → Action W A) → ((w : W) → Keeps P (m w)) → Keeps P (reading m)
  unfolding reading
  Keeps-reading m km = record { at = λ w p. (km w).at w p }

  pub Keeps-attempt : (m : Action W A) → Keeps P m → Keeps P (attempt m)
  unfolding attempt
  Keeps-attempt m km = record { at = λ w p. km.at w p }

  pub Keeps-if :
      (b : Bool) (m n : Action W A) → Keeps P m → Keeps P n → Keeps P (if b then m else n)
  Keeps-if true m n km kn = km
  Keeps-if false m n km kn = kn

  handled :
      (r : Result RuntimeError A) (handle : RuntimeError → Action W A)
      → ((e : RuntimeError) → Keeps P (handle e))
      → Keeps P (or_handle r handle)
  handled (ok a) handle kh = record { at = λ w p. p }
  handled (err e) handle kh = kh e

  pub Keeps-catching :
      (m : Action W A) (handle : RuntimeError → Action W A)
      → Keeps P m
      → ((e : RuntimeError) → Keeps P (handle e))
      → Keeps P (catching m handle)
  unfolding catching
  Keeps-catching m handle km kh = record {
    at = λ w p. (handled (m w).0 handle kh).at (m w).1 (km.at w p);
  }

  pub Keeps-Ensures : {m : Action W A} → Keeps P m → Ensures P m (λ a. P) P
  Keeps-Ensures {m} km = record { after = λ w p. settles P (m w).0 (m w).1 (km.at w p) }

module _ {W : Type 0} {P : W → Type 0} where
  pub Keeps-unless : (b : Bool) (e : RuntimeError) → Keeps P (unless b e)
  unfolding unless
  Keeps-unless true e = record { at = λ w p. p }
  Keeps-unless false e = record { at = λ w p. p }

module _ {W A B : Type 0} {P : W → Type 0} where
  continued :
      (r : Result RuntimeError A) (next : A → Action W B)
      → ((a : A) → Keeps P (next a))
      → Keeps P (continue r next)
  continued (ok a) next kn = kn a
  continued (err e) next kn = record { at = λ w p. p }

  pub Keeps-bind :
      (m : Action W A) (next : A → Action W B)
      → Keeps P m
      → ((a : A) → Keeps P (next a))
      → Keeps P (m >>= next)
  unfolding ◌>>=◌
  Keeps-bind m next km kn = record {
    at = λ w p. (continued (m w).0 next kn).at (m w).1 (km.at w p);
  }

pub ruleset keeps_rules = (
  Keeps-pure, Keeps-throw, Keeps-of_result, Keeps-reading, Keeps-attempt, Keeps-if, Keeps-catching,
  Keeps-unless, Keeps-bind,
)

module _ {W A : Type 0} {Q Q' : A → W → Type 0} {E E' : W → Type 0} where
  weaker :
      ((a : A) (w : W) → Q a w → Q' a w)
      → ((w : W) → E w → E' w)
      → (r : Result RuntimeError A) (w : W) → Settles Q E r w
      → Settles Q' E' r w
  weaker hq he (ok a) w q = hq a w q
  weaker hq he (err e) w q = he w q

  pub Ensures-weaken :
      {P : W → Type 0} {m : Action W A}
      → ((a : A) (w : W) → Q a w → Q' a w)
      → ((w : W) → E w → E' w)
      → Ensures P m Q E
      → Ensures P m Q' E'
  Ensures-weaken {P} {m} hq he em = record {
    after = λ w p. weaker hq he (m w).0 (m w).1 (em.after w p);
  }

module _ {W A : Type 0} (Q : A → W → Type 0) (R E : W → Type 0) where
  with_kept :
      (r : Result RuntimeError A) (w : W)
      → Settles Q E r w
      → R w
      → Settles (λ a w'. Q a w' × R w') R r w
  with_kept (ok a) w q k = (q, k)
  with_kept (err e) w q k = k

module _ {W A : Type 0} {Q : A → W → Type 0} {R E : W → Type 0} where
  -- What a computation ensures, with what it keeps.
  pub Ensures-and :
      {P : W → Type 0} {m : Action W A}
      → Ensures P m Q E
      → Keeps R m
      → Ensures (λ w. P w × R w) m (λ a w. Q a w × R w) R
  Ensures-and {P} {m} em km = record {
    after = λ w p. with_kept Q R E (m w).0 (m w).1 (em.after w p.0) (km.at w p.1);
  }

module _ {W A : Type 0} {P P' : W → Type 0} {Q : A → W → Type 0} {E : W → Type 0} where
  pub Ensures-from : {m : Action W A} → ((w : W) → P' w → P w) → Ensures P m Q E → Ensures P' m Q E
  Ensures-from h em = record { after = λ w p. em.after w (h w p) }

module _ {W A : Type 0} {P Q : W → Type 0} where
  pub Keeps-and : {m : Action W A} → Keeps P m → Keeps Q m → Keeps (λ w. P w × Q w) m
  Keeps-and kp kq = record { at = λ w p. (kp.at w p.0, kq.at w p.1) }

module _ {W A : Type 0} {P R : W → Type 0} where
  pub Ensures-at : {m : Action W A} → Ensures P m (λ a. R) R → (w : W) → P w → R (m w).1
  Ensures-at {m} em w p = settled R (m w).0 (m w).1 (em.after w p)

  pub Ensures-attempt :
      {E : W → Type 0} (m : Action W A) → Ensures P m (λ a. R) R → Ensures P (attempt m) (λ r. R) E
  unfolding attempt
  Ensures-attempt m em = record { after = λ w p. Ensures-at em w p }
