-- ===== src/Status/Tests.antt =====
-- Allowed and refused transitions, and the theorems at some of them.
use nimplex.Prelude.{◌≡◌, refl, true, false}
use nimplex.Status.{queued, running, completed, can_transition, is_terminal}
use nimplex.Status.Paths.{Leads, here, next, Leads-terminal}

queued_runs : can_transition queued running ≡ true
unfolding can_transition
queued_runs = refl

queued_does_not_complete : can_transition queued completed ≡ false
unfolding can_transition
queued_does_not_complete = refl

Leads_example : Leads queued completed
unfolding can_transition
Leads_example = next {t = running} (next {t = queued} here refl) refl

Leads-terminal_example : completed ≡ completed
unfolding is_terminal
Leads-terminal_example = Leads-terminal {s = completed} refl here
