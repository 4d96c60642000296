-- ===== src/Sessions/Conversation.antt =====
-- `continuationMessages`: the messages that a new turn continues from.
use nimplex.Prelude.{
  String, Bool, true, false, not, ◌||◌, Option, none, some, List, [], ◌∷◌, ◌++◌, any, if◌then◌else◌,
  str_eq, Result, ok, err, ◌>>=◌,
}
use nimplex.Storage.Records.{
  Json, Items, Members, null, boolean, number, non_finite, text, array, object, nil, cons, end,
  member,
}
use nimplex.Store.Members.{get_member, set_member, text_of}
use nimplex.Store.Records.{
  ExecutorEvent, model_call, tool_result, message_continue, TurnConfig, RuntimeError, refused,
}

-- the ids of the tool results
unfoldable pub outcomes : List ExecutorEvent → List String
outcomes [] = []
outcomes (tool_result id name content is_error ∷ events) = id ∷ outcomes events
outcomes (_ ∷ events) = outcomes events

abbrev pub has : List String → Option String → Bool
has ids none = false
has ids (some id) = any (λ j. str_eq j id) ids

abbrev pub is_tool_call : Option String → Bool
is_tool_call none = false
is_tool_call (some type) = str_eq type "toolCall"

-- a block is kept unless it is a tool call with no outcome
unfoldable pub keep_members : List String → Members → Bool
unfolding get_member
keep_members ids ms =
    not (is_tool_call (text_of (get_member "type" ms))) || has ids (text_of (get_member "id" ms))

-- `block.type` throws where the block is null
abbrev pub keep_block : List String → Json → Result RuntimeError Bool
unfolding keep_members
keep_block ids null = err (refused "TypeError")
keep_block ids (object ms) = ok (keep_members ids ms)
keep_block ids _ = ok true

unfoldable pub keep_blocks : List String → Items → Result RuntimeError Items
keep_blocks ids nil = ok nil
keep_blocks ids (cons block blocks) = do
  keep ← keep_block ids block
  rest ← keep_blocks ids blocks
  ok (if keep then cons block rest else rest)

-- a message of the model: nothing where every block of it is dropped
abbrev pub with_blocks : Members → Items → List Json
with_blocks ms nil = []
with_blocks ms (cons b bs) = object (set_member "content" (array (cons b bs)) ms) ∷ []

abbrev pub keep_content : List String → Members → Option Json → Result RuntimeError (List Json)
keep_content ids ms (some (array blocks)) = do
  kept ← keep_blocks ids blocks
  ok (with_blocks ms kept)
keep_content ids ms _ = ok (object ms ∷ [])

abbrev pub model_message : List String → Json → Result RuntimeError (List Json)
model_message ids (object ms) = keep_content ids ms (get_member "content" ms)
model_message ids message = ok (message ∷ [])

-- `p?.message`
abbrev pub payload_message : Json → Option Json
payload_message (object ms) = get_member "message" ms
payload_message _ = none

abbrev pub user_message : String → Json
user_message content = object (
    member "role" (text "user")
      (member "content" (text content) (member "timestamp" (number "0") end)))

abbrev pub result_message : String → String → Json → Bool → Json
result_message id name content is_error = object (
    member "role" (text "toolResult") (
      member "toolCallId" (text id) (
        member "toolName" (text name) (
          member "content" content
            (member "isError" (boolean is_error) (member "timestamp" (number "0") end))))))

-- What a number's JSON text stands for is not zero, for JavaScript's truth of a value.
module _ (is_nonzero : String → Bool) where
  abbrev pub is_truthy : Json → Bool
  is_truthy null = false
  is_truthy (boolean b) = b
  is_truthy (number n) = is_nonzero n
  is_truthy non_finite = false
  is_truthy (text s) = not (str_eq s "")
  is_truthy (array xs) = true
  is_truthy (object ms) = true

  -- the branch for a message that is there
  abbrev pub called : List String → Option Json → Result RuntimeError (List Json)
  called ids none = ok []
  called ids (some message) = if is_truthy message then model_message ids message else ok []

  -- what one event adds
  unfoldable pub event_messages : List String → ExecutorEvent → Result RuntimeError (List Json)
  unfolding get_member set_member keep_blocks keep_members
  event_messages ids (model_call payload) = called ids (payload_message payload)
  event_messages ids (tool_result id name content is_error) =
      ok (result_message id name content is_error ∷ [])
  event_messages ids (message_continue content) = ok (user_message content ∷ [])
  event_messages ids _ = ok []

  unfoldable pub all_messages : List String → List ExecutorEvent → Result RuntimeError (List Json)
  all_messages ids [] = ok []
  all_messages ids (event ∷ events) = do
    these ← event_messages ids event
    rest ← all_messages ids events
    ok (these ++ rest)

  unfoldable pub continuation_messages :
      TurnConfig → List ExecutorEvent → Result RuntimeError (List Json)
  unfolding outcomes all_messages
  continuation_messages config events = do
    messages ← all_messages (outcomes events) events
    ok (config.prior_messages ++ (user_message config.input ∷ messages))
