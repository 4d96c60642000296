-- ===== src/Sessions/Requests.antt =====
-- What a turn is asked to do: the schema's conditions, the comparison of two requests, the model.
use nimplex.Prelude.{
  ℕ, ◌+◌, String, Bool, true, false, ◌&&◌, ◌||◌, Option, none, some, List, [], ◌∷◌, any, all,
  length, if◌then◌else◌, leb, ◌==◌, str_eq, opt_eq, Result, ok, ◌>>◌, guard,
}
use Prim.Native.Char.{code}
use Prim.Native.String.{len, slice}
use text.Mathlib.Text.{find?}
use nimplex.Prelude.Texts.{text_length}
use nimplex.Store.Records.{
  Attachment, StartTurnRequest, Sandbox, e2b, docker, ContextMode, continue, reset, compact,
  ExecutionMode, build, read_only, RuntimeError, refused,
}

-- `/^[A-Za-z0-9._:-]+$/` after the bound on the length
abbrev pub is_id_char : ℕ → Bool
is_id_char c =
    (leb b'A' c && leb c b'Z')
    || (leb b'a' c && leb c b'z')
    || (leb b'0' c && leb c b'9')
    || c == b'.'
    || c == b'_'
    || c == b':'
    || c == b'-'

unfoldable pub id_chars : String → Bool
id_chars String.[] = true
id_chars (String.◌∷◌ c s) = is_id_char (code c) && id_chars s

abbrev pub is_request_id : Option String → Bool
is_request_id none = true
is_request_id (some s) = leb 1 (text_length s) && leb (text_length s) 128 && id_chars s

abbrev pub is_attachment : Attachment → Bool
is_attachment a = leb (text_length a.path) 1024 && leb (text_length a.content) 131072

abbrev pub are_attachments : Option (List Attachment) → Bool
are_attachments none = true
are_attachments (some xs) = leb (length xs) 16 && all is_attachment xs

abbrev pub thinking_levels : List String
thinking_levels = "off" ∷ "minimal" ∷ "low" ∷ "medium" ∷ "high" ∷ "xhigh" ∷ "max" ∷ []

abbrev pub is_thinking : Option String → Bool
is_thinking none = true
is_thinking (some s) = any (λ l. str_eq l s) thinking_levels

-- `startTurnRequest.parse` returns
unfoldable pub is_request : StartTurnRequest → Bool
unfolding text_length id_chars
is_request r =
    is_request_id r.request_id
    && leb 1 (text_length r.prompt)
    && leb 1 (text_length r.model)
    && leb 1 r.timeout
    && leb r.timeout 86400
    && is_thinking r.thinking
    && are_attachments r.attachments

abbrev pub sandbox_eq : Sandbox → Sandbox → Bool
sandbox_eq e2b e2b = true
sandbox_eq docker docker = true
sandbox_eq _ _ = false

abbrev pub context_mode_eq : ContextMode → ContextMode → Bool
context_mode_eq continue continue = true
context_mode_eq reset reset = true
context_mode_eq compact compact = true
context_mode_eq _ _ = false

abbrev pub execution_mode_eq : ExecutionMode → ExecutionMode → Bool
execution_mode_eq build build = true
execution_mode_eq read_only read_only = true
execution_mode_eq _ _ = false

unfoldable pub attachments_eq : List Attachment → List Attachment → Bool
attachments_eq [] [] = true
attachments_eq (x ∷ xs) (y ∷ ys) =
    str_eq x.path y.path && str_eq x.content y.content && attachments_eq xs ys
attachments_eq _ _ = false

abbrev pub all_attachments_eq : Option (List Attachment) → Option (List Attachment) → Bool
unfolding attachments_eq
all_attachments_eq none none = true
all_attachments_eq (some xs) (some ys) = attachments_eq xs ys
all_attachments_eq _ _ = false

-- `JSON.stringify(a) === JSON.stringify(b)` for two requests that the schema has parsed
unfoldable pub request_eq : StartTurnRequest → StartTurnRequest → Bool
request_eq a b =
    opt_eq a.request_id b.request_id
    && str_eq a.prompt b.prompt
    && str_eq a.instructions b.instructions
    && str_eq a.model b.model
    && sandbox_eq a.sandbox b.sandbox
    && a.timeout == b.timeout
    && context_mode_eq a.context_mode b.context_mode
    && execution_mode_eq a.execution_mode b.execution_mode
    && opt_eq a.thinking b.thinking
    && all_attachments_eq a.attachments b.attachments

-- One model of the installed catalog, by its provider and its id.
pub record CatalogModel : Type 0 where
  pub provider : String
  pub id : String

pub record SelectedModel : Type 0 where
  pub provider : String
  pub id : String
  pub billing : String

abbrev pub codex_provider : String
codex_provider = "openai-codex"

abbrev pub select : String → String → SelectedModel
select provider id = record {
  provider = provider;
  id = id;
  billing = if str_eq provider codex_provider then "subscription" else "api";
}

-- the provider and the id that a selection names
abbrev pub selection_parts : String → String × String
selection_parts selection = elim (find? selection "/") [
  | none ↦ ("anthropic", selection)
  | some slash ↦ (slice selection 0 slash, slice selection (slash + 1) (len selection))
]

unfoldable pub resolve_local_model : List CatalogModel → String → Result RuntimeError SelectedModel
resolve_local_model catalog selection =
    let (provider, id) = selection_parts selection in
    do
      guard (any (λ (m : CatalogModel). str_eq m.provider provider && str_eq m.id id) catalog)
          (refused "Unsupported Pi model")
      ok (select provider id)
