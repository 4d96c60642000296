-- ===== src/Sessions/Equality.antt =====
-- A request equals itself, so that a retry of an accepted request is recognised.
use nimplex.Prelude.{
  String, ◌≡◌, refl, true, Option, none, some, List, [], ◌∷◌, opt_eq, eq_refl, ==_refl,
}
use nimplex.Store.Records.{
  Attachment, StartTurnRequest, Sandbox, e2b, docker, ContextMode, continue, reset, compact,
  ExecutionMode, build, read_only,
}
use nimplex.Sessions.Requests.{
  sandbox_eq, context_mode_eq, execution_mode_eq, attachments_eq, all_attachments_eq, request_eq,
}

opt_eq_refl : (o : Option String) → opt_eq o o ≡ true
opt_eq_refl none = refl
opt_eq_refl (some s) = eq_refl s

sandbox_eq_refl : (s : Sandbox) → sandbox_eq s s ≡ true
sandbox_eq_refl e2b = refl
sandbox_eq_refl docker = refl

context_mode_eq_refl : (m : ContextMode) → context_mode_eq m m ≡ true
context_mode_eq_refl continue = refl
context_mode_eq_refl reset = refl
context_mode_eq_refl compact = refl

execution_mode_eq_refl : (m : ExecutionMode) → execution_mode_eq m m ≡ true
execution_mode_eq_refl build = refl
execution_mode_eq_refl read_only = refl

attachments_eq_refl : (xs : List Attachment) → attachments_eq xs xs ≡ true
unfolding attachments_eq
attachments_eq_refl [] = refl
attachments_eq_refl (x ∷ xs) = rw (eq_refl x.path, eq_refl x.content) (attachments_eq_refl xs)

all_attachments_eq_refl : (o : Option (List Attachment)) → all_attachments_eq o o ≡ true
unfolding attachments_eq
all_attachments_eq_refl none = refl
all_attachments_eq_refl (some xs) = attachments_eq_refl xs

pub request_eq_refl : (r : StartTurnRequest) → request_eq r r ≡ true
unfolding request_eq
request_eq_refl r = rw (
  opt_eq_refl r.request_id,
  eq_refl r.prompt,
  eq_refl r.instructions,
  eq_refl r.model,
  sandbox_eq_refl r.sandbox,
  ==_refl r.timeout,
  context_mode_eq_refl r.context_mode,
  execution_mode_eq_refl r.execution_mode,
  opt_eq_refl r.thinking,
  all_attachments_eq_refl r.attachments,
)
