-- ===== src/Store/Tests.antt =====
-- The event log of a small store.
use nimplex.Prelude.{String, ◌≡◌, refl, false, List, [], ◌∷◌, ◌++◌, str_eq}
use nimplex.Storage.Records.{text}
use nimplex.Store.Records.{ExecutorEvent, model_call}
use nimplex.Store.Tables.{append, events, next_seq, stamp}
use nimplex.Store.Events.{IsLog, log, log-append}
use nimplex.Store.Samples.{clock, history, store, store-IsLog}

abbrev response : List ExecutorEvent
response = model_call (text "hi") ∷ []

log-append_example :
    IsLog (append clock "t1" response store)
    × (log "t1" (append clock "t1" response store) ≡ log "t1" store ++ response)
    × ((j : String)
        → str_eq "t1" j ≡ false
        → log j (append clock "t1" response store) ≡ log j store)
log-append_example = log-append clock "t1" response store store-IsLog

log_of_store : log "t1" store ≡ history
unfolding append events next_seq stamp
log_of_store = refl
