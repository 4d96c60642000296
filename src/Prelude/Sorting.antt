-- ===== src/Prelude/Sorting.antt =====
-- `ORDER BY key`: a stable sort of rows by a number, which leaves rows in order as they are.
use nimplex.Prelude.Tests.{leb, if◌then◌else◌, le→leb}
use nimplex.Prelude.Lists.{All, All-append}
use Prim.Native.Nat.{ℕ, ◌≤◌}
use mathlib.Core.Path.{◌≡◌, refl}
use mathlib.Core.List.{List, [], ◌∷◌, ◌++◌}

module _ {ℓ} {A : Type ℓ} (key : A → ℕ) where
  pub insert_by : A → List A → List A
  insert_by x [] = x ∷ []
  insert_by x (y ∷ ys) = if leb (key x) (key y) then x ∷ y ∷ ys else y ∷ insert_by x ys

  unfoldable pub order_by : List A → List A
  unfolding insert_by
  order_by [] = []
  order_by (x ∷ xs) = insert_by x (order_by xs)

  -- The keys do not decrease, each compared with all that follow.
  abbrev pub IsAscending : List A → Type 0
  IsAscending [] = Unit
  IsAscending (x ∷ xs) = All (λ y. key x ≤ key y) xs × IsAscending xs

  insert_by-ascending :
      (x : A) (ys : List A) → All (λ y. key x ≤ key y) ys → insert_by x ys ≡ x ∷ ys
  unfolding insert_by
  insert_by-ascending x [] h = refl
  insert_by-ascending x (y ∷ ys) h = rw (le→leb (key x) (key y) h.0)

  pub order_by-ascending : (xs : List A) → IsAscending xs → order_by xs ≡ xs
  unfolding order_by
  order_by-ascending [] h = refl
  order_by-ascending (x ∷ xs) h = rw (order_by-ascending xs h.1) (insert_by-ascending x xs h.0)

  pub IsAscending-append :
      (xs : List A) (y : A)
      → IsAscending xs
      → All (λ x. key x ≤ key y) xs
      → IsAscending (xs ++ y ∷ [])
  IsAscending-append [] y h k = (tt, tt)
  IsAscending-append (x ∷ xs) y h k =
      (All-append (λ z. key x ≤ key z) xs (y ∷ []) h.0 (k.0, tt), IsAscending-append xs y h.1 k.1)
