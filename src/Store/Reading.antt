-- ===== src/Store/Reading.antt =====
-- Reading a turn's log from a sequence number on, and reading on where it has grown.
use nimplex.Prelude.{
  ℕ, zero, suc, ◌+◌, ◌-◌, max, String, ◌≡◌, refl, ◌∙◌, sym, ap, inl, inr, Bool, ◌&&◌, Option, none,
  some, List, [], ◌∷◌, ◌++◌, filter, drop, length, Bool-cases, leb, str_eq, arith,
}
use mathlib.Core.Path.{fun_ext}
use nimplex.Prelude.Sorting.{order_by, order_by-ascending}
use nimplex.Store.Records.{RunEvent}
use nimplex.Store.Tables.{Database, events, is_after}
use nimplex.Store.Events.{of_turn, IsDense, IsDense-IsAscending, IsLog}

-- how many rows come before the first one that is read
abbrev pub skip : Option ℕ → ℕ
skip none = 0
skip (some k) = suc k

drop-nil : (n : ℕ) → drop {A = RunEvent} n [] ≡ []
drop-nil zero = refl
drop-nil (suc n) = refl

is_after-skip : (after : Option ℕ) (n : ℕ) → is_after after n ≡ leb (skip after) n
is_after-skip none n = ground arith
is_after-skip (some k) n = ground arith

filter-both :
    (p q : RunEvent → Bool) (es : List RunEvent)
    → filter (λ e. p e && q e) es ≡ filter q (filter p es)
filter-both p q [] = refl
filter-both p q (e ∷ es) = elim (Bool-cases (p e)) [
  | inl kept ↦ rw (kept, filter-both p q es) refl
  | inr dropped ↦ rw (dropped, filter-both p q es) refl
]

filter-drop :
    (s n : ℕ) (es : List RunEvent)
    → IsDense n es
    → filter (λ (e : RunEvent). leb s e.seq) es ≡ drop (s - n) es
filter-drop s n [] d = sym (drop-nil (s - n))
filter-drop s n (e ∷ es) d = elim (Bool-cases (leb s n)) [
  | inl read ↦
      let none_left : s - n ≡ 0 = ground arith in
      let none_left' : s - (n + 1) ≡ 0 = ground arith in
      let rest = filter-drop s (n + 1) es d.1 in
      let read' = ap (leb s) d.0 ∙ read in
      rw (read', none_left) (ap (λ xs. e ∷ xs) (rw none_left' at rest))
  | inr skipped ↦
      let one_more : s - n ≡ suc (s - (n + 1)) = ground arith in
      let skipped' = ap (leb s) d.0 ∙ skipped in
      rw (skipped', one_more) (filter-drop s (n + 1) es d.1)
]

pub drop-IsDense : (k n : ℕ) (es : List RunEvent) → IsDense n es → IsDense (n + k) (drop k es)
drop-IsDense zero n es d = let same : n + 0 ≡ n = omega arith in rw same d
drop-IsDense (suc k) n [] d = tt
drop-IsDense (suc k) n (e ∷ es) d =
    let same : n + suc k ≡ n + 1 + k = omega arith in rw same (drop-IsDense k (n + 1) es d.1)

pub length-drop : (k : ℕ) (es : List RunEvent) → length (drop k es) ≡ length es - k
length-drop zero es = omega arith
length-drop (suc k) [] = omega arith
length-drop (suc k) (e ∷ es) = omega (arith, length-drop k es)

-- Reading from `after` on is the turn's rows less those up to it.
pub events-drop :
    (id : String) (after : Option ℕ) (db : Database)
    → IsLog db
    → events id after db ≡ drop (skip after) (of_turn id db.events)
unfolding events
events-drop id after db h =
    let es = of_turn id db.events in
    let same : (λ (n : ℕ). is_after after n) ≡ (λ n. leb (skip after) n) =
      fun_ext (is_after-skip after) in
    let all : skip after - 0 ≡ skip after = omega arith in
    let picked =
      filter-both (λ (e : RunEvent). str_eq e.turn_id id) (λ e. is_after after e.seq) db.events
      ∙ ap (λ (p : ℕ → Bool). filter (λ (e : RunEvent). p e.seq) es) same
      ∙ filter-drop (skip after) 0 es (h.dense id)
      ∙ ap (λ k. drop k es) all in
    let dense = drop-IsDense (skip after) 0 es (h.dense id) in
    ap (order_by (λ (e : RunEvent). e.seq)) picked
    ∙ order_by-ascending (λ (e : RunEvent). e.seq) (drop (skip after) es)
        (IsDense-IsAscending _ _ dense)

-- Reading on from where a log ended, once it has grown, reads the rest of it.
pub drop-grown :
    (s : ℕ) (es more : List RunEvent)
    → drop s es ++ drop (max s (length es)) (es ++ more) ≡ drop s (es ++ more)
drop-grown s [] more = let same : max s 0 ≡ s = omega arith in rw (drop-nil s, same) refl
drop-grown zero (e ∷ es) more =
    let same : max 0 (suc (length es)) ≡ suc (max 0 (length es)) = omega arith in
    rw same (ap (λ xs. e ∷ xs) (drop-grown zero es more))
drop-grown (suc s) (e ∷ es) more =
    let same : max (suc s) (suc (length es)) ≡ suc (max s (length es)) = omega arith in
    rw same (drop-grown s es more)
