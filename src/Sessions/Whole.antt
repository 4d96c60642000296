-- ===== src/Sessions/Whole.antt =====
-- A log in which every tool call has its result is continued whole.
use nimplex.Prelude.{
  String, ◌≡◌, ◌≢◌, ◌⊎◌, inl, inr, refl, ap, Bool, Bool-cases, true, false, str_eq, eq_iff, eq_refl,
  arith, Option, none, some, List, [], ◌∷◌, ◌++◌, All, ok,
}
use nimplex.Storage.Records.{
  Json, Items, Members, null, boolean, number, non_finite, text, array, object, nil, cons,
}
use nimplex.Store.Members.{get_member, set_member-get_member, text_of}
use nimplex.Store.Records.{ExecutorEvent, model_call, tool_result, message_continue, TurnConfig}
use nimplex.Sessions.Conversation.{
  outcomes, has, is_tool_call, keep_members, keep_block, keep_blocks, keep_content, model_message,
  event_messages, all_messages, continuation_messages, payload_message, is_truthy, user_message,
  result_message,
}

-- The log has a result for the call.
abbrev pub HasResult : String → List ExecutorEvent → Type 0
HasResult id [] = ⊥
HasResult id (tool_result j name content is_error ∷ events) = (j ≡ id) ⊎ HasResult id events
HasResult id (_ ∷ events) = HasResult id events

-- A block is an object that is no tool call, or a call that has a result; or any value but null that is
-- no object.
abbrev pub IsAnswered : List ExecutorEvent → Json → Type 0
IsAnswered log null = ⊥
IsAnswered log (object ms) =
    (get_member "type" ms ≢ some (text "toolCall"))
    ⊎ ((id : String) × (get_member "id" ms ≡ some (text id)) × HasResult id log)
IsAnswered log _ = Unit

abbrev pub AreAnswered : List ExecutorEvent → Items → Type 0
AreAnswered log nil = Unit
AreAnswered log (cons block blocks) = IsAnswered log block × AreAnswered log blocks

has_outcome :
    (id : String) (events : List ExecutorEvent)
    → HasResult id events
    → has (outcomes events) (some id) ≡ true
unfolding outcomes
has_outcome id [] h = absurd h
has_outcome id (tool_result j name content is_error ∷ events) (inl own) = rw (own, eq_refl id) refl
has_outcome id (tool_result j name content is_error ∷ events) (inr later) =
    ground (arith, has_outcome id events later)
has_outcome id (_ ∷ events) h = has_outcome id events h

no_call : (type : Option Json) → type ≢ some (text "toolCall") → is_tool_call (text_of type) ≡ false
no_call none h = refl
no_call (some null) h = refl
no_call (some (boolean b)) h = refl
no_call (some (number n)) h = refl
no_call (some non_finite) h = refl
no_call (some (array xs)) h = refl
no_call (some (object ms)) h = refl
no_call (some (text s)) h = elim (Bool-cases (str_eq s "toolCall")) [
  | inl same ↦ absurd (h (ap (λ x. some (text x)) ((eq_iff s "toolCall").0 same)))
  | inr differs ↦ differs
]

keep_block-IsAnswered :
    (log : List ExecutorEvent) (block : Json)
    → IsAnswered log block
    → keep_block (outcomes log) block ≡ ok true
unfolding keep_members
keep_block-IsAnswered log null h = absurd h
keep_block-IsAnswered log (boolean b) h = refl
keep_block-IsAnswered log (number n) h = refl
keep_block-IsAnswered log non_finite h = refl
keep_block-IsAnswered log (text s) h = refl
keep_block-IsAnswered log (array xs) h = refl
keep_block-IsAnswered log (object ms) (inl other) = rw (no_call (get_member "type" ms) other) refl
keep_block-IsAnswered log (object ms) (inr (id, there, answered)) =
    ap (λ b. ok b)
      (ground (arith, ap (λ m. has (outcomes log) (text_of m)) there, has_outcome id log answered))

keep_blocks-AreAnswered :
    (log : List ExecutorEvent) (xs : Items)
    → AreAnswered log xs
    → keep_blocks (outcomes log) xs ≡ ok xs
unfolding keep_blocks
keep_blocks-AreAnswered log nil h = refl
keep_blocks-AreAnswered log (cons x xs) h =
    rw (keep_block-IsAnswered log x h.0, keep_blocks-AreAnswered log xs h.1) refl

-- A model's message that loses nothing: content that is no array, or blocks that are all kept: no tool call without a result.
abbrev pub IsWhole : List ExecutorEvent → Members → Option Json → Type 0
IsWhole log ms (some (array nil)) = ⊥
IsWhole log ms (some (array (cons x xs))) = AreAnswered log (cons x xs)
IsWhole log ms _ = Unit

keep_content-IsWhole :
    (log : List ExecutorEvent) (ms : Members) (content : Option Json)
    → get_member "content" ms ≡ content
    → IsWhole log ms content
    → keep_content (outcomes log) ms content ≡ ok (object ms ∷ [])
keep_content-IsWhole log ms none e h = refl
keep_content-IsWhole log ms (some null) e h = refl
keep_content-IsWhole log ms (some (boolean b)) e h = refl
keep_content-IsWhole log ms (some (number n)) e h = refl
keep_content-IsWhole log ms (some non_finite) e h = refl
keep_content-IsWhole log ms (some (text s)) e h = refl
keep_content-IsWhole log ms (some (object o)) e h = refl
keep_content-IsWhole log ms (some (array nil)) e h = absurd h
keep_content-IsWhole log ms (some (array (cons x xs))) e h =
    rw (keep_blocks-AreAnswered log (cons x xs) h)
      (ap (λ o. ok (object o ∷ [])) (set_member-get_member "content" (array (cons x xs)) ms e))

-- An event that loses nothing, and the messages that it stands for.
abbrev pub IsWholeMessage : List ExecutorEvent → Json → Type 0
IsWholeMessage log (object ms) = IsWhole log ms (get_member "content" ms)
IsWholeMessage log _ = Unit

model_message-IsWhole :
    (log : List ExecutorEvent) (message : Json)
    → IsWholeMessage log message
    → model_message (outcomes log) message ≡ ok (message ∷ [])
model_message-IsWhole log null h = refl
model_message-IsWhole log (boolean b) h = refl
model_message-IsWhole log (number n) h = refl
model_message-IsWhole log non_finite h = refl
model_message-IsWhole log (text s) h = refl
model_message-IsWhole log (array xs) h = refl
model_message-IsWhole log (object ms) h =
    keep_content-IsWhole log ms (get_member "content" ms) refl h

abbrev pub with_message : Option Json → List Json → List Json
with_message none rest = rest
with_message (some message) rest = message ∷ rest

-- the messages of a log as they were committed
unfoldable pub committed_messages : List ExecutorEvent → List Json
unfolding get_member
committed_messages [] = []
committed_messages (model_call payload ∷ events) =
    with_message (payload_message payload) (committed_messages events)
committed_messages (tool_result id name content is_error ∷ events) =
    result_message id name content is_error ∷ committed_messages events
committed_messages (message_continue content ∷ events) =
    user_message content ∷ committed_messages events
committed_messages (_ ∷ events) = committed_messages events

module _ (is_nonzero : String → Bool) where
  -- An event of a log that is whole: a model's call has a message, which loses nothing.
  abbrev pub IsWholeEvent : List ExecutorEvent → ExecutorEvent → Type 0
  IsWholeEvent log (model_call (object ms)) =
      (message : Json) × (get_member "message" ms ≡ some message)
      × (is_truthy is_nonzero message ≡ true)
      × IsWholeMessage log message
  IsWholeEvent log (model_call _) = ⊥
  IsWholeEvent log _ = Unit

  event_messages-IsWholeEvent :
      (log : List ExecutorEvent) (event : ExecutorEvent) (events : List ExecutorEvent)
      (rest : List Json)
      → IsWholeEvent log event
      → all_messages is_nonzero (outcomes log) events ≡ ok rest
      → committed_messages events ≡ rest
      → all_messages is_nonzero (outcomes log) (event ∷ events)
        ≡ ok (committed_messages (event ∷ events))
  unfolding all_messages event_messages committed_messages
  event_messages-IsWholeEvent log (model_call (object ms)) events rest
        (message, there, truthy, whole) e c =
      rw (there, truthy, model_message-IsWhole log message whole, e, c) refl
  event_messages-IsWholeEvent log (model_call null) events rest h e c = absurd h
  event_messages-IsWholeEvent log (model_call (boolean b)) events rest h e c = absurd h
  event_messages-IsWholeEvent log (model_call (number n)) events rest h e c = absurd h
  event_messages-IsWholeEvent log (model_call non_finite) events rest h e c = absurd h
  event_messages-IsWholeEvent log (model_call (text s)) events rest h e c = absurd h
  event_messages-IsWholeEvent log (model_call (array xs)) events rest h e c = absurd h
  event_messages-IsWholeEvent log _ events rest h e c = rw (e, c) refl

  all_messages-IsWholeEvent :
      (log : List ExecutorEvent) (events : List ExecutorEvent)
      → All (IsWholeEvent log) events
      → all_messages is_nonzero (outcomes log) events ≡ ok (committed_messages events)
  all_messages-IsWholeEvent log [] h = unfold all_messages committed_messages in refl
  all_messages-IsWholeEvent log (event ∷ events) h =
      event_messages-IsWholeEvent log event events (committed_messages events) h.0
        (all_messages-IsWholeEvent log events h.1) refl

  -- Where every model call of the log has a message all of whose tool calls have their results, and
  -- no message is empty, the continuation is the earlier messages, the turn's input, and every
  -- message of the log as it was committed, in order.
  pub continuation_messages-committed :
      (config : TurnConfig) (events : List ExecutorEvent)
      → All (IsWholeEvent events) events
      → continuation_messages is_nonzero config events
        ≡ ok (config.prior_messages ++ (user_message config.input ∷ committed_messages events))
  unfolding continuation_messages
  continuation_messages-committed config events h =
      rw (all_messages-IsWholeEvent events events h) refl
