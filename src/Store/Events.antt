-- ===== src/Store/Events.antt =====
-- The event table is one append-only log for each turn.
use nimplex.Prelude.{
  ℕ, suc, ◌+◌, ◌≤◌, max, String, ◌≡◌, refl, ◌∙◌, ap, subst, inl, inr, true, false, ◌&&◌, Option,
  none, some, List, [], ◌∷◌, ◌++◌, map, filter, filter-append, append-nil, length, All, Bool-cases,
  and-true, str_eq, eq_iff, eq_refl, arith,
}
use mathlib.Core.List.{map-append}
use nimplex.Prelude.Sorting.{order_by-ascending, IsAscending}
use nimplex.Store.Records.{RunEvent, ExecutorEvent, StoredTurn, Workspace}
use nimplex.Store.Tables.{
  Database, empty_database, events, next_seq, stamp, append, save_turn, save_workspace, workspace,
}

-- the rows of one turn, in the order of their insertion
abbrev pub of_turn : String → List RunEvent → List RunEvent
of_turn id = filter (λ (e : RunEvent). str_eq e.turn_id id)

-- The sequence numbers are `n`, `n + 1`, and so on.
abbrev pub IsDense : ℕ → List RunEvent → Type 0
IsDense n [] = Unit
IsDense n (e ∷ es) = (e.seq ≡ n) × IsDense (n + 1) es

-- Every turn's rows are numbered from 0 on without a gap.
pub record IsLog (db : Database) : Type 0 where
  pub dense : (id : String) → IsDense 0 (of_turn id db.events)

pub IsLog-empty_database : IsLog empty_database
IsLog-empty_database = record { dense = λ id. tt }

IsDense-above :
    (m n : ℕ) (es : List RunEvent) → m ≤ n → IsDense n es → All (λ (e : RunEvent). m ≤ e.seq) es
IsDense-above m n [] h d = tt
IsDense-above m n (e ∷ es) h d = (omega (arith, d.0), IsDense-above m (n + 1) es (omega arith) d.1)

pub IsDense-IsAscending :
    (n : ℕ) (es : List RunEvent) → IsDense n es → IsAscending (λ (e : RunEvent). e.seq) es
IsDense-IsAscending n [] d = tt
IsDense-IsAscending n (e ∷ es) d =
    (IsDense-above e.seq (n + 1) es (omega (arith, d.0)) d.1, IsDense-IsAscending (n + 1) es d.1)

IsDense-append :
    (n : ℕ) (es fs : List RunEvent)
    → IsDense n es
    → IsDense (n + length es) fs
    → IsDense n (es ++ fs)
IsDense-append n [] fs d k = let same : n + 0 ≡ n = omega arith in rw same at k
IsDense-append n (e ∷ es) fs d k =
    let same : n + suc (length es) ≡ n + 1 + length es = omega arith in
    (d.0, IsDense-append (n + 1) es fs d.1 (rw same at k))

max-next_seq :
    (n : ℕ) (id : String) (rows : List RunEvent)
    → IsDense n (of_turn id rows)
    → max n (next_seq id rows) ≡ n + length (of_turn id rows)
unfolding next_seq
max-next_seq n id [] d = omega arith
max-next_seq n id (e ∷ rows) d = elim (Bool-cases (str_eq e.turn_id id)) [
  | inl own ↦
      let (first, rest) = rw own at d in
      rw own (omega (arith, first, max-next_seq (n + 1) id rows rest))
  | inr foreign ↦ let same = rw foreign at d in rw foreign (max-next_seq n id rows same)
]

of_turn-stamp_self :
    (now : ℕ → String) (id : String) (n : ℕ) (es : List ExecutorEvent)
    → of_turn id (stamp now id n es) ≡ stamp now id n es
unfolding stamp
of_turn-stamp_self now id n [] = refl
of_turn-stamp_self now id n (e ∷ es) = rw (eq_refl id, of_turn-stamp_self now id (n + 1) es)

of_turn-stamp_ne :
    (now : ℕ → String) (id j : String) (n : ℕ) (es : List ExecutorEvent)
    → str_eq id j ≡ false
    → of_turn j (stamp now id n es) ≡ []
unfolding stamp
of_turn-stamp_ne now id j n [] h = refl
of_turn-stamp_ne now id j n (e ∷ es) h = rw (h, of_turn-stamp_ne now id j (n + 1) es h)

stamp-IsDense :
    (now : ℕ → String) (id : String) (n : ℕ) (es : List ExecutorEvent)
    → IsDense n (stamp now id n es)
unfolding stamp
stamp-IsDense now id n [] = tt
stamp-IsDense now id n (e ∷ es) = (refl, stamp-IsDense now id (n + 1) es)

map-stamp :
    (now : ℕ → String) (id : String) (n : ℕ) (es : List ExecutorEvent)
    → map (λ r. r.event) (stamp now id n es) ≡ es
unfolding stamp
map-stamp now id n [] = refl
map-stamp now id n (e ∷ es) = ap (λ xs. e ∷ xs) (map-stamp now id (n + 1) es)

-- what a reader sees of a turn's log
abbrev pub log : String → Database → List ExecutorEvent
log id db = map (λ e. e.event) (events id none db)

-- Writes to the other tables leave the logs alone.
pub save_turn-IsLog : (t : StoredTurn) (db : Database) → IsLog db → IsLog (save_turn t db)
unfolding save_turn
save_turn-IsLog t db h = record { dense = h.dense }

pub log-save_turn :
    (t : StoredTurn) (db : Database) (id : String) → log id (save_turn t db) ≡ log id db
unfolding save_turn events
log-save_turn t db id = refl

pub save_workspace-IsLog :
    (id : String) (w : Workspace) (db : Database) → IsLog db → IsLog (save_workspace id w db)
unfolding save_workspace
save_workspace-IsLog id w db h = record { dense = h.dense }

pub log-save_workspace :
    (id : String) (w : Workspace) (db : Database) (j : String)
    → log j (save_workspace id w db) ≡ log j db
unfolding save_workspace events
log-save_workspace id w db j = refl

pub workspace-append :
    (now : ℕ → String) (id : String) (es : List ExecutorEvent) (db : Database) (key : Option String)
    → workspace key (append now id es db) ≡ workspace key db
unfolding append workspace
workspace-append now id es db none = refl
workspace-append now id es db (some j) = refl

pub turns-append :
    (now : ℕ → String) (id : String) (es : List ExecutorEvent) (db : Database)
    → (append now id es db).turns ≡ db.turns
unfolding append
turns-append now id es db = refl

pub events-IsLog :
    (id : String) (db : Database) → IsLog db → events id none db ≡ of_turn id db.events
unfolding events
events-IsLog id db h =
    let plain : filter (λ (e : RunEvent). str_eq e.turn_id id && true) db.events
        ≡ of_turn id db.events =
      simp and-true in
    rw plain (
      order_by-ascending (λ (e : RunEvent). e.seq) (of_turn id db.events)
        (IsDense-IsAscending 0 _ (h.dense id)))

module _ (now : ℕ → String) (id : String) (es : List ExecutorEvent) (db : Database)
    (h : IsLog db) where
  next_seq-IsLog : next_seq id db.events ≡ length (of_turn id db.events)
  next_seq-IsLog = omega (arith, max-next_seq 0 id db.events (h.dense id))

  of_turn-append_self :
      of_turn id (append now id es db).events
      ≡ of_turn id db.events ++ stamp now id (next_seq id db.events) es
  unfolding append
  of_turn-append_self =
      filter-append _ db.events (stamp now id (next_seq id db.events) es)
      ∙ ap (λ xs. of_turn id db.events ++ xs) (of_turn-stamp_self now id (next_seq id db.events) es)

  of_turn-append_ne :
      (j : String)
      → str_eq id j ≡ false
      → of_turn j (append now id es db).events ≡ of_turn j db.events
  unfolding append
  of_turn-append_ne j ne =
      filter-append _ db.events (stamp now id (next_seq id db.events) es)
      ∙ ap (λ xs. of_turn j db.events ++ xs)
          (of_turn-stamp_ne now id j (next_seq id db.events) es ne)
      ∙ append-nil (of_turn j db.events)

  pub append-IsLog : IsLog (append now id es db)
  append-IsLog = record {
    dense = λ j. elim (Bool-cases (str_eq id j)) [
      | inl own ↦
          let same : id ≡ j = (eq_iff id j).0 own in
          subst (λ k. IsDense 0 (of_turn k (append now id es db).events)) same
            (rw (of_turn-append_self, next_seq-IsLog)
              (IsDense-append 0 (of_turn id db.events) _ (h.dense id) (
                let zero_add : 0 + length (of_turn id db.events) ≡ length (of_turn id db.events) =
                  omega arith in
                rw zero_add (stamp-IsDense now id (length (of_turn id db.events)) es))))
      | inr ne ↦ rw (of_turn-append_ne j ne) (h.dense j)
    ];
  }

  -- Where every turn's rows are numbered without a gap from 0, appending keeps that, adds the events
  -- in their order at the end of the turn's log, and leaves every other turn's log as it was.
  pub log-append :
      IsLog (append now id es db)
      × (log id (append now id es db) ≡ log id db ++ es)
      × ((j : String) → str_eq id j ≡ false → log j (append now id es db) ≡ log j db)
  log-append = (
    append-IsLog,
    rw
        (
          events-IsLog id (append now id es db) append-IsLog,
          events-IsLog id db h,
          of_turn-append_self,
          map-append,
          map-stamp now id,
        )
        refl,
    λ j ne.
        rw
          (
            events-IsLog j (append now id es db) append-IsLog,
            events-IsLog j db h,
            of_turn-append_ne j ne,
          )
          refl,
  )
