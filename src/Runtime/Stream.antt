-- ===== src/Runtime/Stream.antt =====
-- `events`, the stream that a subscriber reads.
use nimplex.Prelude.{
  ℕ, String, Bool, true, false, ◌||◌, Option, some, List, [], ◌∷◌, ◌++◌, any, if◌then◌else◌, str_eq,
  Result, ok, ◌>>=◌,
}
use nimplex.Status.{is_terminal}
use nimplex.Store.Records.{RunEvent, RuntimeError}
use nimplex.Store.Tables.{turn}
use nimplex.Sessions.Snapshots.{public_events}
use nimplex.Runtime.Lifecycle.{Runtime}

-- What a generator holds between two rounds, and all that it has yielded.
pub record Reader : Type 0 where
  pub after : Option ℕ
  pub yielded : List RunEvent

abbrev pub opened : Option ℕ → Reader
opened after = record { after = after; yielded = [] }

-- the loop over the public events
unfoldable pub yield_all : List RunEvent → Reader → Reader
yield_all [] r = r
yield_all (e ∷ es) r = yield_all es (record { after = some e.seq; yielded = r.yielded ++ e ∷ [] })

abbrev pub is_active : String → Runtime → Bool
is_active id rt = any (λ task. str_eq task.1 id) rt.active

-- One waking of the generator: the runtime whose log it reads, and the one that it finds when its
-- subscriber has taken the last of the events, with whether its signal has been aborted at these times.
pub record Wake : Type 0 where
  pub rt : Runtime
  pub aborted : Bool
  pub rt_after : Runtime
  pub aborted_after : Bool

abbrev pub is_over : String → Wake → Result RuntimeError Bool
is_over id w = do
  ended ←
      if is_active id w.rt_after
      then ok false
      else do t ← turn id w.rt_after.db; ok (is_terminal t.result.status)
  ok (ended || w.rt_after.closing || w.aborted_after)

abbrev pub read_events : String → Wake → Reader → Reader
unfolding public_events yield_all
read_events id w r = yield_all (public_events id r.after w.rt.db) r

-- The loop, over the wakings that there are: whether the generator has returned, and its state.
unfoldable pub stream : String → List Wake → Reader → Result RuntimeError (Bool × Reader)
unfolding read_events
stream id [] r = ok (false, r)
stream id (w ∷ wakes) r =
    let rest = stream id wakes (read_events id w r) in
    if w.aborted
    then ok (true, r)
    else do over ← is_over id w; if over then ok (true, read_events id w r) else rest
