-- ===== src/Runtime/Recovery.antt =====
-- After recovery no turn is live, and what had ended is as it was.
use nimplex.Prelude.{
  ℕ, String, ◌≡◌, refl, ◌∙◌, sym, ap, subst, ◌⊎◌, inl, inr, Bool, true, false, Option, none, some,
  List, [], ◌∷◌, map, any, All, Bool-cases, if◌then◌else◌, str_eq, eq_iff, eq_refl, arith,
}
use mathlib.Core.Option
use nimplex.Prelude.Dict.{Dict, lookup, lookup-insert, keys, contains}
use nimplex.Status.{failed, is_terminal}
use nimplex.Store.Records.{StoredTurn}
use nimplex.Store.Tables.{Database, save_turn}
use nimplex.Store.Events.{turns-append}
use nimplex.Runtime.Lifecycle.{
  interrupted_error, end_turn, interrupt_turn, interrupt_turns, recover_turns,
}

-- Every row's key is its turn's identity, and no key has two rows.
abbrev pub IsKeyed : Dict StoredTurn → Type 0
IsKeyed [] = Unit
IsKeyed ((k, t) ∷ d) = (t.result.id ≡ k) × (contains k (keys d) ≡ false) × IsKeyed d

module _ (at : String) (now : ℕ → String) where
  -- what recovery makes of a turn
  abbrev pub interrupted : StoredTurn → StoredTurn
  interrupted t =
      if is_terminal t.result.status then t else end_turn failed (some interrupted_error) at t

  lookup-interrupt_turn :
      (t : StoredTurn) (db : Database) (id : String)
      → lookup id (interrupt_turn at now t db).turns ≡ (
          if is_terminal t.result.status
          then lookup id db.turns
          else if str_eq t.result.id id
          then some (interrupted t)
          else lookup id db.turns)
  unfolding interrupt_turn
  lookup-interrupt_turn t db id = elim (Bool-cases (is_terminal t.result.status)) [
    | inl ended ↦ rw ended
    | inr live ↦
        rw (live, turns-append now t.result.id)
          (unfold save_turn in
            lookup-insert t.result.id id (end_turn failed (some interrupted_error) at t) db.turns)
  ]

  module _ (start : Dict StoredTurn) where
    -- a table in which some turns of the starting one have been interrupted
    abbrev Partway : Database → Type 0
    Partway db =
        (id : String)
        → (lookup id db.turns ≡ lookup id start)
          ⊎ (lookup id db.turns ≡ Option.map interrupted (lookup id start))

    abbrev Listed : StoredTurn → Type 0
    Listed t = lookup t.result.id start ≡ some t

    lookup-step :
        (t : StoredTurn) (db : Database) (id : String)
        → Listed t
        → Partway db
        → lookup id (interrupt_turn at now t db).turns ≡ (
            if str_eq t.result.id id
            then Option.map interrupted (lookup id start)
            else lookup id db.turns)
    lookup-step t db id l p = elim (Bool-cases (str_eq t.result.id id)) [
      | inr other ↦ rw other (ground (arith, lookup-interrupt_turn t db id))
      | inl same ↦
          let equal : t.result.id ≡ id = (eq_iff t.result.id id).0 same in
          let found : lookup id start ≡ some t = ap (λ k. lookup k start) (sym equal) ∙ l in
          rw (same, found)
            (elim (Bool-cases (is_terminal t.result.status)) [
              | inl ended ↦
                  rw (lookup-interrupt_turn t db id, ended)
                    (elim (p id) [
                      | inl kept ↦ kept ∙ found
                      | inr done ↦ done ∙ ap (Option.map interrupted) found ∙ rw ended
                    ])
              | inr live ↦ rw (lookup-interrupt_turn t db id, live, same)
            ])
    ]

    Partway-step :
        (t : StoredTurn) (db : Database)
        → Listed t
        → Partway db
        → Partway (interrupt_turn at now t db)
    Partway-step t db l p id = elim (Bool-cases (str_eq t.result.id id)) [
      | inl same ↦ inr (rw same at (lookup-step t db id l p))
      | inr other ↦ rw (rw other at (lookup-step t db id l p)) (p id)
    ]

    abbrev named : String → StoredTurn → Bool
    named id t = str_eq t.result.id id

    lookup-interrupt_turns :
        (ts : List StoredTurn) (db : Database) (id : String)
        → All Listed ts
        → Partway db
        → lookup id (interrupt_turns at now ts db).turns ≡ (
            if any (named id) ts
            then Option.map interrupted (lookup id start)
            else lookup id db.turns)
    unfolding interrupt_turns
    lookup-interrupt_turns [] db id l p = refl
    lookup-interrupt_turns (t ∷ ts) db id l p =
        rw (lookup-interrupt_turns ts (interrupt_turn at now t db) id l.1 (Partway-step t db l.0 p))
          (rw (lookup-step t db id l.0 p) (ground arith))

  lookup-cons_ne :
      (k j : String) (t : StoredTurn) (d : Dict StoredTurn)
      → contains k (keys d) ≡ false
      → lookup j d ≡ some t
      → str_eq k j ≡ false
  unfolding lookup contains
  lookup-cons_ne k j t [] h e = cc
  lookup-cons_ne k j t ((i, u) ∷ d) h e =
      ground (arith, lookup-cons_ne k j t d, eq_iff i j, eq_iff k j, eq_iff i k)

  -- the rows of a keyed table, each found under its own identity
  Listed-rows :
      (d e : Dict StoredTurn)
      → ((id : String) (t : StoredTurn) → lookup id d ≡ some t → lookup id e ≡ some t)
      → IsKeyed d
      → All (Listed e) (map (λ r. r.1) d)
  Listed-rows [] e sub h = tt
  Listed-rows ((k, t) ∷ d) e sub (own, fresh, rest) = (
    sub t.result.id t (unfold lookup in rw (own, eq_refl k)),
    Listed-rows d e
        (λ id u found. sub id u (unfold lookup in rw (lookup-cons_ne k id u d fresh found) found))
        rest,
  )

  named-rows :
      (d : Dict StoredTurn) (id : String)
      → IsKeyed d
      → any (λ t. str_eq t.result.id id) (map (λ r. r.1) d) ≡ false
      → lookup id d ≡ none
  unfolding lookup
  named-rows [] id h e = refl
  named-rows ((k, t) ∷ d) id (own, fresh, rest) e = ground (arith, named-rows d id rest)

  -- Where every turn is stored under its own identity, once: recovery leaves every ended turn as it
  -- was, turns every other one into a failed one with the error `runtime_interrupted`, and adds and
  -- loses none.
  pub lookup-recover_turns :
      (db : Database) (id : String)
      → IsKeyed db.turns
      → lookup id (recover_turns at now db).turns ≡ Option.map interrupted (lookup id db.turns)
  unfolding recover_turns
  lookup-recover_turns db id h =
      let rows = map (λ (r : String × StoredTurn). r.1) db.turns in
      let done =
        lookup-interrupt_turns db.turns rows db id (Listed-rows db.turns db.turns (λ j t e. e) h)
          (λ j. inl refl) in
      elim (Bool-cases (any (named db.turns id) rows)) [
        | inl listed ↦ rw listed at done
        | inr absent ↦
            let missing = named-rows db.turns id h absent in
            rw (missing) (rw absent at done ∙ missing)
      ]

  interrupted-ended : (t : StoredTurn) → is_terminal (interrupted t).result.status ≡ true
  interrupted-ended t = elim (Bool-cases (is_terminal t.result.status)) [
    | inl ended ↦ rw ended ended
    | inr live ↦ rw live (unfold is_terminal in refl)
  ]

  map-interrupted-ended :
      (o : Option StoredTurn) {t : StoredTurn}
      → Option.map interrupted o ≡ some t
      → is_terminal t.result.status ≡ true
  map-interrupted-ended none e = cc
  map-interrupted-ended (some u) {t} e =
      let same : interrupted u ≡ t = cc in
      subst (λ r. is_terminal r.result.status ≡ true) same (interrupted-ended u)

  -- After recovery every turn that is found has ended, whatever the store held, if every turn is
  -- stored under its own identity, once.
  pub recover_turns-ended :
      (db : Database) (id : String) {t : StoredTurn}
      → IsKeyed db.turns
      → lookup id (recover_turns at now db).turns ≡ some t
      → is_terminal t.result.status ≡ true
  recover_turns-ended db id h e =
      map-interrupted-ended (lookup id db.turns) (sym (lookup-recover_turns db id h) ∙ e)
