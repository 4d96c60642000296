-- ===== src/Status/Paths.antt =====
-- Sequences of allowed transitions.
use nimplex.Prelude.{◌≡◌, refl, ◌↔◌, true, false}
use nimplex.Status.{
  RunStatus, queued, running, awaiting_input, completed, failed, killed, canceled, can_transition,
  is_terminal,
}

-- The states that a run can pass through one after another.
pub data Leads (s : RunStatus) : RunStatus → Type 0 where
  here : Leads s s
  next : {t u : RunStatus} → Leads s t → can_transition t u ≡ true → Leads s u

-- A state is terminal exactly when no transition leaves it.
pub is_terminal_iff_stuck :
    (s : RunStatus) → (is_terminal s ≡ true) ↔ ((t : RunStatus) → can_transition s t ≡ false)
unfolding is_terminal can_transition
is_terminal_iff_stuck queued = ((λ h. cc), (λ h. cc (h running)))
is_terminal_iff_stuck running = ((λ h. cc), (λ h. cc (h completed)))
is_terminal_iff_stuck awaiting_input = ((λ h. cc), (λ h. cc (h running)))
is_terminal_iff_stuck completed = ((λ h t. refl), (λ h. refl))
is_terminal_iff_stuck failed = ((λ h t. refl), (λ h. refl))
is_terminal_iff_stuck killed = ((λ h t. refl), (λ h. refl))
is_terminal_iff_stuck canceled = ((λ h t. refl), (λ h. refl))

stuck_of_terminal : (s t : RunStatus) → is_terminal s ≡ true → can_transition s t ≡ false
stuck_of_terminal s t h = (is_terminal_iff_stuck s).0 h t

-- Whatever sequence of allowed transitions starts in a terminal state has no step.
pub Leads-terminal : {s t : RunStatus} → is_terminal s ≡ true → Leads s t → t ≡ s
Leads-terminal h here = refl
Leads-terminal {s} h (next {t = t} {u = u} path step) =
    cc (Leads-terminal h path, stuck_of_terminal s u h)
