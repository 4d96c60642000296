-- ===== src/Status.antt =====
-- Run states (packages/contracts/src/index.ts) and their transitions (packages/core/src/status.ts).
pub mod Paths
mod Tests
use nimplex.Prelude.{Bool, true, false, ◌||◌, List, [], ◌∷◌, any}

pub data RunStatus : Type 0 where
  queued running awaiting_input completed failed killed canceled : RunStatus

-- `===` on two states
abbrev pub status_eq : RunStatus → RunStatus → Bool
status_eq queued queued = true
status_eq running running = true
status_eq awaiting_input awaiting_input = true
status_eq completed completed = true
status_eq failed failed = true
status_eq killed killed = true
status_eq canceled canceled = true
status_eq _ _ = false

abbrev pub terminal_statuses : List RunStatus
terminal_statuses = completed ∷ failed ∷ killed ∷ canceled ∷ []

pub transitions : RunStatus → List RunStatus
transitions queued = running ∷ canceled ∷ []
transitions running = awaiting_input ∷ completed ∷ failed ∷ killed ∷ canceled ∷ []
transitions awaiting_input = running ∷ killed ∷ canceled ∷ []
transitions completed = []
transitions failed = []
transitions killed = []
transitions canceled = []

unfoldable pub can_transition : RunStatus → RunStatus → Bool
unfolding transitions
can_transition from to = any (status_eq to) (transitions from)

unfoldable pub is_terminal : RunStatus → Bool
is_terminal status = any (status_eq status) terminal_statuses
