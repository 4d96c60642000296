-- ===== src/Prelude/Dict.antt =====
-- A table with a text as its primary key, or a JavaScript object, in insertion order.
use nimplex.Prelude.Tests.{if◌then◌else◌}
use nimplex.Prelude.Lists.{any}
use Prim.Native.String.{String}
use mathlib.Core.Path.{◌≡◌, refl}
use mathlib.Core.Bool.{Bool, false, ◌||◌}
use mathlib.Core.Option.{Option, none, some}
use mathlib.Core.List.{List, [], ◌∷◌, ◌++◌, map}
use native.Mathlib.Omega.{arith}
use text.Mathlib.Text.{◌==◌ as str_eq}
use text.Mathlib.TextEquality.{eq_iff}

abbrev pub Dict {ℓ} : Type ℓ → Type ℓ
Dict V = List (String × V)

unfoldable pub contains : String → List String → Bool
contains k = any (λ j. str_eq j k)

module _ {ℓ} {V : Type ℓ} where
  unfoldable pub lookup : String → Dict V → Option V
  lookup k [] = none
  lookup k ((j, v) ∷ d) = if str_eq j k then some v else lookup k d

  -- `d[k] = v`, INSERT … ON CONFLICT DO UPDATE
  unfoldable pub insert : String → V → Dict V → Dict V
  insert k v [] = (k, v) ∷ []
  insert k v ((j, w) ∷ d) = if str_eq j k then (j, v) ∷ d else (j, w) ∷ insert k v d

  -- `delete d[k]`, DELETE … WHERE id=?
  unfoldable pub erase : String → Dict V → Dict V
  erase k [] = []
  erase k ((j, v) ∷ d) = let rest = erase k d in if str_eq j k then rest else (j, v) ∷ rest

  abbrev pub keys : Dict V → List String
  keys = map (λ e. e.0)

  pub lookup-insert :
      (k j : String) (v : V) (d : Dict V)
      → lookup j (insert k v d) ≡ (if str_eq k j then some v else lookup j d)
  unfolding lookup insert
  lookup-insert k j v [] = refl
  lookup-insert k j v ((i, w) ∷ d) =
      ground (arith, lookup-insert k j v d, eq_iff k j, eq_iff i k, eq_iff i j)

  pub lookup-erase :
      (k j : String) (d : Dict V) → lookup j (erase k d) ≡ (if str_eq k j then none else lookup j d)
  unfolding lookup erase
  lookup-erase k j [] = ground arith
  lookup-erase k j ((i, w) ∷ d) =
      ground (arith, lookup-erase k j d, eq_iff k j, eq_iff i k, eq_iff i j)

  -- A key that is not listed is not found.
  pub lookup-keys : (k : String) (d : Dict V) → contains k (keys d) ≡ false → lookup k d ≡ none
  unfolding lookup contains
  lookup-keys k [] h = refl
  lookup-keys k ((j, v) ∷ d) h = ground (arith, lookup-keys k d)

-- `[...new Set(names)]`
unfoldable pub remove : String → List String → List String
remove k [] = []
remove k (j ∷ js) = let rest = remove k js in if str_eq j k then rest else j ∷ rest

unfoldable pub unique : List String → List String
unfolding remove
unique [] = []
unique (k ∷ ks) = k ∷ remove k (unique ks)

pub contains-remove :
    (k j : String) (ks : List String)
    → contains j (remove k ks) ≡ (if str_eq k j then false else contains j ks)
unfolding contains remove
contains-remove k j [] = ground arith
contains-remove k j (i ∷ ks) =
    ground (arith, contains-remove k j ks, eq_iff k j, eq_iff i k, eq_iff i j)

-- Dropping repetitions keeps the same names.
pub contains-unique : (j : String) (ks : List String) → contains j (unique ks) ≡ contains j ks
unfolding contains unique
contains-unique j [] = refl
contains-unique j (k ∷ ks) =
    ground (arith, contains-unique j ks, contains-remove k j (unique ks), eq_iff k j)

pub contains-append :
    (j : String) (ks ls : List String) → contains j (ks ++ ls) ≡ (contains j ks || contains j ls)
unfolding contains
contains-append j [] ls = refl
contains-append j (k ∷ ks) ls = ground (arith, contains-append j ks ls)
