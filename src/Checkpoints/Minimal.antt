-- ===== src/Checkpoints/Minimal.antt =====
-- Which `file.changed` events a tool commit logs: one for each path whose bytes differ.
use nimplex.Prelude.{
  ℕ, String, ◌≡◌, ◌≢◌, refl, ◌∙◌, ◌⊎◌, filter, filter-append, false, append-nil, subst, length,
  ◌||◌, inl, inr, true, Option, none, some, List, [], ◌∷◌, ◌++◌, Bool-cases, if◌then◌else◌, str_eq,
  eq_iff, eq_refl, arith, ap, sym,
}
use mathlib.Core.Option.{some-injective}
use mathlib.Core.Bool.{true≢false}
use nimplex.Prelude.Dict.{
  Dict, lookup, keys, unique, contains, lookup-keys, contains-unique, contains-append,
  contains-remove, remove,
}
use nimplex.Store.Records.{Bytes, FileChange}
use nimplex.Checkpoints.Steps.{Host, bytes_eq, path_change, path_changes, file_changes}

pub bytes_eq-eq : (a b : Bytes) → bytes_eq a b ≡ true → a ≡ b
unfolding bytes_eq
bytes_eq-eq [] [] h = refl
bytes_eq-eq [] (y ∷ ys) h = cc
bytes_eq-eq (x ∷ xs) [] h = cc
bytes_eq-eq (x ∷ xs) (y ∷ ys) h =
    let first : x ≡ y = ground arith in
    let rest : bytes_eq xs ys ≡ true = ground arith in cc (bytes_eq-eq xs ys rest)

-- the changes of one path
abbrev pub changes_at : String → List FileChange → List FileChange
changes_at q = filter (λ (c : FileChange). str_eq c.path q)

-- At a path whose bytes are the same before and after there is no change, and at any other there is one,
-- with the bytes after it, or none where the file is gone, and the revision.
abbrev pub IsMinimal : Dict Bytes → Dict Bytes → ℕ → List FileChange → String → Type 0
IsMinimal before files revision changes q =
    ((lookup q before ≡ lookup q files) × (changes_at q changes ≡ []))
    ⊎ ((lookup q before ≢ lookup q files)
        × ((c : FileChange) × (changes_at q changes ≡ c ∷ [])
            × (c.content ≡ lookup q files)
            × (c.revision ≡ revision)))

contains-remove_self : (k : String) (ks : List String) → contains k (remove k ks) ≡ false
contains-remove_self k ks = rw (contains-remove k k ks, eq_refl k) refl

-- no name twice
abbrev IsOnce : List String → Type 0
IsOnce [] = Unit
IsOnce (k ∷ ks) = (contains k ks ≡ false) × IsOnce ks

without :
    (k j : String) (ks : List String) → contains j ks ≡ false → contains j (remove k ks) ≡ false
without k j ks h = ground (arith, contains-remove k j ks, h)

bytes_eq_refl : (a : Bytes) → bytes_eq a a ≡ true
unfolding bytes_eq
bytes_eq_refl [] = refl
bytes_eq_refl (x ∷ xs) = ground (arith, bytes_eq_refl xs)

remove-IsOnce : (k : String) (ks : List String) → IsOnce ks → IsOnce (remove k ks)
unfolding remove
remove-IsOnce k [] h = tt
remove-IsOnce k (j ∷ ks) h = elim (Bool-cases (str_eq j k)) [
  | inl same ↦ rw same (remove-IsOnce k ks h.1)
  | inr other ↦ rw other (without k j ks h.0, remove-IsOnce k ks h.1)
]

unique-IsOnce : (ks : List String) → IsOnce (unique ks)
unfolding unique
unique-IsOnce [] = tt
unique-IsOnce (k ∷ ks) =
    (contains-remove_self k (unique ks), remove-IsOnce k (unique ks) (unique-IsOnce ks))

found_key : (q : String) (d : Dict Bytes) → contains q (keys d) ≡ true → lookup q d ≢ none
unfolding lookup contains
found_key q [] h e = cc
found_key q ((j, v) ∷ d) h e = elim (Bool-cases (str_eq j q)) [
  | inl here ↦ cc (rw here at e)
  | inr away ↦ found_key q d (rw away at h) (rw away at e)
]

module _ (host : Host) (before files : Dict Bytes) (revision : ℕ) where
  abbrev own : String → List FileChange
  own p = path_change host revision p (lookup p files) (lookup p before)

  at_own :
      (p q : String) (after prior : Option Bytes)
      → changes_at q (path_change host revision p after prior)
        ≡ (if str_eq p q then path_change host revision p after prior else [])
  unfolding path_change
  at_own p q none prior = refl
  at_own p q (some b) none = refl
  at_own p q (some b) (some a) = elim (Bool-cases (bytes_eq a b)) [
    | inl same ↦ rw same (ground arith)
    | inr differ ↦ rw differ refl
  ]

  changes_at-path_changes :
      (paths : List String) (q : String)
      → IsOnce paths
      → changes_at q (path_changes host before files revision paths)
        ≡ (if contains q paths then own q else [])
  unfolding path_changes contains
  changes_at-path_changes [] q h = refl
  changes_at-path_changes (p ∷ paths) q h =
      let rest = changes_at-path_changes paths q h.1 in
      let first = at_own p q (lookup p files) (lookup p before) in
      let both =
        filter-append (λ (c : FileChange). str_eq c.path q) (own p)
          (path_changes host before files revision paths) in
      elim (Bool-cases (str_eq p q)) [
        | inl here ↦
            let same : p ≡ q = (eq_iff p q).0 here in
            let gone : contains q paths ≡ false = subst (λ k. contains k paths ≡ false) same h.0 in
            rw here (both ∙ rw (first, here, rest, gone) (append-nil _ ∙ ap own same))
        | inr away ↦ rw away (both ∙ rw (first, away, rest) refl)
      ]

  own-IsMinimal :
      (q : String) (after prior : Option Bytes)
      → (prior ≡ none → after ≢ none)
      → ((prior ≡ after) × (path_change host revision q after prior ≡ []))
        ⊎ ((prior ≢ after)
            × ((c : FileChange) × (path_change host revision q after prior ≡ c ∷ [])
                × (c.content ≡ after)
                × (c.revision ≡ revision)))
  unfolding path_change
  own-IsMinimal q none none h = absurd (h refl refl)
  own-IsMinimal q none (some a) h = inr ((λ e. cc), (_, refl, refl, refl))
  own-IsMinimal q (some b) none h = inr ((λ e. cc), (_, refl, refl, refl))
  own-IsMinimal q (some b) (some a) h = elim (Bool-cases (bytes_eq a b)) [
    | inl same ↦ inl (ap (λ x. some x) (bytes_eq-eq a b same), rw same refl)
    | inr differ ↦
        let c : FileChange = record {
          path = q;
          content = some b;
          bytes = length b;
          sha256 = some (host.sha256 b);
          revision = revision;
        } in
        inr (
          (λ e. true≢false (
              sym (subst (λ x. bytes_eq a x ≡ true) (some-injective a b e) (bytes_eq_refl a))
              ∙ differ)),
          (c, rw differ refl, refl, refl),
        )
  ]

  pub file_changes-IsMinimal :
      (q : String) → IsMinimal before files revision (file_changes host before files revision) q
  unfolding file_changes
  file_changes-IsMinimal q =
      let paths = keys before ++ keys files in
      let all = changes_at-path_changes (unique paths) q (unique-IsOnce paths) in
      elim (Bool-cases (contains q paths)) [
        | inl listed ↦
            let here = rw (contains-unique q paths, listed) at all in
            let known : (contains q (keys before) || contains q (keys files)) ≡ true =
              sym (contains-append q (keys before) (keys files)) ∙ listed in
            subst
              (λ cs.
                ((lookup q before ≡ lookup q files) × (cs ≡ []))
                ⊎ ((lookup q before ≢ lookup q files)
                    × ((c : FileChange) × (cs ≡ c ∷ [])
                        × (c.content ≡ lookup q files)
                        × (c.revision ≡ revision))))
              (sym here)
              (own-IsMinimal q (lookup q files) (lookup q before) (λ gone gone'.
                elim (Bool-cases (contains q (keys before))) [
                  | inl old ↦ found_key q before old gone
                  | inr new ↦ found_key q files (ground (arith, known, new)) gone'
                ]))
        | inr absent ↦
            let neither = rw (contains-append q (keys before) (keys files)) at absent in
            inl (
              lookup-keys q before (ground arith) ∙ sym (lookup-keys q files (ground arith)),
              rw (contains-unique q paths, absent) at all,
            )
      ]
