-- ===== src/Runtime/Streaming.antt =====
-- A subscriber reads every public event of a turn once, in order, whenever it is woken.
use nimplex.Prelude.{
  ℕ, suc, ◌+◌, ◌-◌, max, String, ◌≡◌, refl, ◌∙◌, sym, ap, subst, ◌⊎◌, inl, inr, Bool, true, false,
  Option, some, List, [], ◌∷◌, ◌++◌, map, drop, length, length-append, get_elem?, append-nil,
  append_assoc, Bool-cases, ok, >>=-eq-ok, ok-injective, arith,
}
use mathlib.Core.List.{map-append}
use nimplex.Store.Records.{RunEvent}
use nimplex.Store.Tables.{Database, events, empty_database}
use nimplex.Store.Events.{of_turn, IsDense, IsLog, IsLog-empty_database}
use nimplex.Store.Reading.{skip, events-drop, drop-IsDense, length-drop, drop-grown}
use nimplex.Sessions.Snapshots.{public_event, public_events}
use nimplex.Runtime.Stream.{Reader, opened, yield_all, Wake, is_over, read_events, stream}

length-public : (es : List RunEvent) → length (map public_event es) ≡ length es
length-public [] = refl
length-public (e ∷ es) = ap suc (length-public es)

public-IsDense : (n : ℕ) (es : List RunEvent) → IsDense n es → IsDense n (map public_event es)
public-IsDense n [] d = tt
public-IsDense n (e ∷ es) d = (d.0, public-IsDense (n + 1) es d.1)

yielded-yield_all : (es : List RunEvent) (r : Reader) → (yield_all es r).yielded ≡ r.yielded ++ es
unfolding yield_all
yielded-yield_all [] r = sym (append-nil r.yielded)
yielded-yield_all (e ∷ es) r = yielded-yield_all es _ ∙ append_assoc r.yielded (e ∷ []) es

after-yield_all :
    (n : ℕ) (es : List RunEvent) (r : Reader)
    → IsDense n es
    → skip r.after ≡ n
    → skip (yield_all es r).after ≡ n + length es
unfolding yield_all
after-yield_all n [] r d at = omega (arith, at)
after-yield_all n (e ∷ es) r d at =
    let next : suc e.seq ≡ n + 1 = omega (arith, d.0) in
    omega (
      arith,
      after-yield_all (n + 1) es (record { after = some e.seq; yielded = r.yielded ++ e ∷ [] }) d.1
          next,
    )

module _ (id : String) (start : Option ℕ) where
  -- The reader has yielded the public log of the store, and goes on right after it.
  pub record CaughtUp (db : Database) (r : Reader) : Type 0 where
    pub whole : r.yielded ≡ public_events id start db
    pub next : skip r.after ≡ max (skip start) (length (of_turn id db.events))

  -- the turn's rows are those of the earlier store and more
  abbrev pub Grown : Database → Database → Type 0
  Grown db db' = (more : List RunEvent) × (of_turn id db'.events ≡ of_turn id db.events ++ more)

  read_events-CaughtUp :
      (w : Wake) (db : Database) (r : Reader)
      → IsLog db
      → IsLog w.rt.db
      → Grown db w.rt.db
      → CaughtUp db r
      → CaughtUp w.rt.db (read_events id w r)
  unfolding public_events yield_all
  read_events-CaughtUp w db r log log' (more, grown) c =
      let es = of_turn id db.events in
      let es' = of_turn id w.rt.db.events in
      let k = skip r.after in
      let read : events id r.after w.rt.db ≡ drop k es' = events-drop id r.after w.rt.db log' in
      let rest : drop k es' ≡ drop (max (skip start) (length es)) (es ++ more) =
        ap (λ n. drop n es') c.next ∙ ap (drop (max (skip start) (length es))) grown in
      let dense = drop-IsDense k 0 es' (log'.dense id) in
      let dense' : IsDense k (drop k es') =
        subst (λ n. IsDense n (drop k es')) (omega arith) dense in
      let len : length es' ≡ length es + length more = ap length grown ∙ length-append es more in
      let count : length (map public_event (drop k es')) ≡ length es' - k =
        length-public (drop k es') ∙ length-drop k es' in
      record {
        whole =
            yielded-yield_all _ r
            ∙ ap (λ xs. xs ++ map public_event (events id r.after w.rt.db)) c.whole
            ∙ ap (λ xs. map public_event xs ++ map public_event (events id r.after w.rt.db))
                (events-drop id start db log)
            ∙ ap (λ xs. map public_event (drop (skip start) es) ++ map public_event xs)
                (read ∙ rest)
            ∙ sym (map-append public_event (drop (skip start) es) _)
            ∙ ap (map public_event) (drop-grown (skip start) es more)
            ∙ ap (λ xs. map public_event (drop (skip start) xs)) (sym grown)
            ∙ ap (map public_event) (sym (events-drop id start w.rt.db log'));
        next =
            ap (λ xs. skip (yield_all (map public_event xs) r).after) read
            ∙ after-yield_all k (map public_event (drop k es')) r (public-IsDense k _ dense') refl
            ∙ omega (arith, c.next, len, count);
      }

  -- Every waking finds a log without gaps that has grown from the last one.
  abbrev pub Growing : Database → List Wake → Type 0
  Growing db [] = Unit
  Growing db (w ∷ wakes) = IsLog w.rt.db × Grown db w.rt.db × Growing w.rt.db wakes

  -- the stores that the stream can have read last: the one before it, and those of the wakings
  abbrev pub stores : Database → List Wake → List Database
  stores db wakes = db ∷ map (λ w. w.rt.db) wakes

  -- the wakings by which the generator has returned, when it has: one that finds the signal aborted,
  -- or the one whose store was read last, after whose events the turn had ended or the stream was to be
  -- closed
  abbrev pub Returned : List Wake → ℕ → Type 0
  Returned wakes i =
      (w : Wake) × (((get_elem? wakes i ≡ some w) × (w.aborted ≡ true))
        ⊎ ((j : ℕ) × (i ≡ suc j) × (get_elem? wakes j ≡ some w) × (is_over id w ≡ ok true)))

  -- What the stream has yielded: the public log of the store that it read last.
  pub record Streamed (db : Database) (wakes : List Wake) (over : Bool) (r : Reader) : Type 0 where
    pub store : Database
    pub i : ℕ
    pub last : get_elem? (stores db wakes) i ≡ some store
    pub caught_up : CaughtUp store r
    pub waiting : over ≡ false → i ≡ length wakes
    pub returned : over ≡ true → Returned wakes i

  later : (w : Wake) (wakes : List Wake) (i : ℕ) → Returned wakes i → Returned (w ∷ wakes) (suc i)
  later w wakes i (v, inl (at, aborted)) = (v, inl (at, aborted))
  later w wakes i (v, inr (j, next, at, over)) = (v, inr (suc j, ap suc next, at, over))

  read_last :
      (db : Database) (w : Wake) (wakes : List Wake) (over : Bool) (r : Reader)
      → Streamed w.rt.db wakes over r
      → Streamed db (w ∷ wakes) over r
  read_last db w wakes over r s = record {
    store = s.store;
    i = suc s.i;
    last = s.last;
    caught_up = s.caught_up;
    waiting = λ open'. ap suc (s.waiting open');
    returned = λ ended. later w wakes s.i (s.returned ended);
  }

  stream-Streamed :
      (wakes : List Wake) (db : Database) (r r' : Reader) (over : Bool)
      → IsLog db
      → CaughtUp db r
      → Growing db wakes
      → stream id wakes r ≡ ok (over, r')
      → Streamed db wakes over r'
  unfolding stream
  stream-Streamed [] db r r' over log c g h =
      let same = ok-injective h in
      let open' : false ≡ over = ap (λ p. p.0) same in
      record {
        store = db;
        i = 0;
        last = refl;
        caught_up = subst (CaughtUp db) (ap (λ p. p.1) same) c;
        waiting = λ o. refl;
        returned = λ o. cc;
      }
  stream-Streamed (w ∷ wakes) db r r' over log c (log', grown, g) h =
      let c' = read_events-CaughtUp w db r log log' grown c in
      elim (Bool-cases w.aborted) [
        | inl aborted ↦
            let same = ok-injective (rw aborted at h) in
            let ended : true ≡ over = ap (λ p. p.0) same in
            record {
              store = db;
              i = 0;
              last = refl;
              caught_up = subst (CaughtUp db) (ap (λ p. p.1) same) c;
              waiting = λ o. cc;
              returned = λ o. (w, inl (refl, aborted));
            }
        | inr going ↦
            let (done, found, h1) = >>=-eq-ok (is_over id w) _ (rw going at h) in
            elim (Bool-cases done) [
              | inl ends ↦
                  let same = ok-injective (rw ends at h1) in
                  let ended : true ≡ over = ap (λ p. p.0) same in
                  record {
                    store = w.rt.db;
                    i = 1;
                    last = refl;
                    caught_up = subst (CaughtUp w.rt.db) (ap (λ p. p.1) same) c';
                    waiting = λ o. cc;
                    returned = λ o. (w, inr (0, refl, refl, found ∙ ap (λ b. ok b) ends));
                  }
              | inr goes_on ↦
                  read_last db w wakes over r'
                    (stream-Streamed wakes w.rt.db _ r' over log' c' g (rw goes_on at h1))
            ]
      ]

  -- Where every waking finds logs without gaps and the turn's log has grown since the last one: what
  -- the stream has yielded is the public log, after the sequence number that it started from, of the
  -- store that it read last, each event once and in order. While the generator waits, that is the
  -- store of the last waking; where it has returned, a waking found its signal aborted, or what it
  -- read last is the store of a waking after whose events were taken the turn had ended or the stream
  -- was to be closed, so an event that came between is not yielded.
  pub stream_lem :
      (wakes : List Wake) (over : Bool) (r : Reader)
      → Growing empty_database wakes
      → stream id wakes (opened start) ≡ ok (over, r)
      → Streamed empty_database wakes over r
  unfolding public_events events
  stream_lem wakes over r g h =
      stream-Streamed wakes empty_database (opened start) r over IsLog-empty_database
        (record { whole = refl; next = omega arith }) g h
