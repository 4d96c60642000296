-- ===== src/Runtime/StreamTests.antt =====
-- A subscriber that is woken while a turn runs, and once more after its end.
use nimplex.Prelude.{◌≡◌, refl, Bool, true, false, none, some, List, [], ◌∷◌, Result, ok, err}
use nimplex.Status.{completed, is_terminal}
use nimplex.Store.Records.{run_finished, RuntimeError}
use nimplex.Store.Tables.{Database, empty_database, append, stamp, next_seq, turn, events}
use nimplex.Store.Events.{IsLog, log-append}
use nimplex.Store.Samples.{clock, store, store-IsLog, turn_in}
use nimplex.Runtime.Stream.{Wake, Reader, opened, stream, yield_all}
use nimplex.Sessions.Snapshots.{public_events}
use nimplex.Runtime.Streaming.{Growing, Streamed, stream_lem}

abbrev ended_store : Database
ended_store =
    append clock "t1" (run_finished completed none ∷ [])
      (record store { turns = ("t1", turn_in completed) ∷ [] })

abbrev wake : Database → Wake
wake db = record {
  rt = record { db = db; closing = false; active = [] };
  aborted = false;
  rt_after = record { db = db; closing = false; active = [] };
  aborted_after = false;
}

abbrev wakes : List Wake
wakes = wake store ∷ wake ended_store ∷ []

abbrev outcome : Result RuntimeError (Bool × Reader) → Bool × Reader
outcome (ok a) = a
outcome (err e) = (false, opened none)

abbrev seen : Reader
unfolding stream yield_all public_events turn is_terminal events append stamp next_seq
seen = (outcome (stream "t1" wakes (opened (some 0)))).1

-- the generator has returned
seen-ok : stream "t1" wakes (opened (some 0)) ≡ ok (true, seen)
unfolding seen
seen-ok = refl

ended_store-IsLog : IsLog ended_store
ended_store-IsLog =
    (log-append clock "t1" (run_finished completed none ∷ [])
      (record store { turns = ("t1", turn_in completed) ∷ [] })
      (record { dense = store-IsLog.dense })).0

wakes-Growing : Growing "t1" (some 0) empty_database wakes
unfolding append stamp next_seq
wakes-Growing = (store-IsLog, (_, refl), (ended_store-IsLog, (_, refl), tt))

stream_lem_example : Streamed "t1" (some 0) empty_database wakes true seen
stream_lem_example = stream_lem "t1" (some 0) wakes true seen wakes-Growing seen-ok

-- A turn that ends while the subscriber holds the events of a round: the generator returns, and the
-- turn's last event is not among what it has yielded.
abbrev late_wake : Wake
late_wake = record (wake store) {
  rt_after = record { db = ended_store; closing = false; active = [] };
}

last_event_lost :
    stream "t1" (late_wake ∷ []) (opened none)
    ≡ ok (true, yield_all (public_events "t1" none store) (opened none))
unfolding stream yield_all public_events turn is_terminal events append stamp next_seq
last_event_lost = refl
