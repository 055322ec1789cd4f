-- ===== src/Providers/Messages.antt =====
-- ai/providers/anthropic_streaming.go: the lines of a stream of Anthropic and the chunks for them.
use openbotstack_core.Base.{
  ◌<>◌, ℕ, suc, String, ◌==◌, Option, none, some, List, [], ◌∷◌, ◌++◌, if◌then◌else◌,
}
use openbotstack_core.Base.{has_prefix, trim_prefix, is_empty}
use openbotstack_core.Base.Int.{ℤ}
use openbotstack_core.Providers.{
  ToolCall, TokenUsage, no_usage, StreamChunk, no_error, context_done, Delivery, last_words,
  at_the_end,
}
use openbotstack_core.Providers.Deltas.{lookup_at, insert_at}
pub mod Calls
pub mod Tools
pub mod Told
pub mod Sent

-- `anthropicStreamToolAccum`, with the text that is written to `JSON`.
pub record StreamToolAccum : Type 0 where
  pub id : String
  pub name : String
  pub json : String

-- `toolAccum`, `toolOrder` and `currentEvent`
pub record MessageState : Type 0 where
  pub tools : List (ℤ × StreamToolAccum)
  pub order : List ℤ
  pub current_event : String

abbrev pub first_state : MessageState
first_state = record { tools = []; order = []; current_event = "" }

-- The content block of a content_block_start.
pub record StartedBlock : Type 0 where
  pub block_type : String
  pub id : String
  pub name : String

-- The delta of a content_block_delta, with its index.
pub record BlockDelta : Type 0 where
  pub index : ℤ
  pub delta_type : String
  pub text : String
  pub partial_json : String

-- json.Unmarshal into the types of content_block_start, of content_block_delta, and of message_delta,
-- which has a reason and the output tokens.
pub record Decoders : Type 0 where
  pub block_start : String → Option (ℤ × Option StartedBlock)
  pub block_delta : String → Option BlockDelta
  pub message_delta : String → Option (String × Option ℕ)

-- The loop of `buildToolCalls`
unfoldable pub build_from : List (ℤ × StreamToolAccum) → List ℤ → List ToolCall
build_from tools [] = []
build_from tools (index ∷ order) = elim (lookup_at index tools) [
  | none ↦ build_from tools order
  | some tool ↦
      record { id = tool.id; name = tool.name; arguments = tool.json } ∷ build_from tools order
]

-- `buildToolCalls`
unfoldable pub build_tool_calls : List (ℤ × StreamToolAccum) → List ℤ → List ToolCall
build_tool_calls tools order = if is_empty tools then [] else build_from tools order

abbrev pub calls_of : MessageState → List ToolCall
calls_of state = build_tool_calls state.tools state.order

-- What a line comes to: the loop goes on, ends, or sends a chunk.
pub data Handled : Type 0 where
  goes_on : MessageState → Handled
  ends : Handled
  sends : StreamChunk → MessageState → Handled

abbrev pub chunk : String → List ToolCall → String → TokenUsage → StreamChunk
chunk content calls reason usage = record {
  content = content;
  tool_calls = calls;
  finish_reason = reason;
  usage = usage;
  error = no_error;
}

-- A content_block_start: a tool that starts has an accumulator of its own.
unfoldable pub start_tool : MessageState → Option (ℤ × Option StartedBlock) → MessageState
start_tool state none = state
start_tool state (some (index, none)) = state
start_tool state (some (index, some block)) =
    if block.block_type == "tool_use"
    then record state {
      tools = insert_at index (record { id = block.id; name = block.name; json = "" }) state.tools;
      order = state.order ++ index ∷ [];
    }
    else state

-- A part of the input of a tool.
unfoldable pub write_json : MessageState → ℤ → String → MessageState
write_json state index part = elim (lookup_at index state.tools) [
  | none ↦ state
  | some tool ↦ record state {
    tools = insert_at index (record tool { json = tool.json <> part }) state.tools;
  }
]

-- A content_block_delta
unfoldable pub handle_delta : MessageState → Option BlockDelta → Handled
handle_delta state none = goes_on state
handle_delta state (some d) =
    if d.delta_type == "text_delta"
    then sends (chunk d.text (calls_of state) "" no_usage) state
    else if d.delta_type == "input_json_delta"
    then goes_on (write_json state d.index d.partial_json)
    else sends (chunk "" (calls_of state) "" no_usage) state

abbrev pub output_usage : Option ℕ → TokenUsage
output_usage none = no_usage
output_usage (some tokens) = record {
  prompt_tokens = 0;
  completion_tokens = tokens;
  total_tokens = 0;
}

-- A message_delta
unfoldable pub handle_message : MessageState → Option (String × Option ℕ) → Handled
handle_message state none = goes_on state
handle_message state (some (reason, tokens)) =
    sends (chunk "" (calls_of state) reason (output_usage tokens)) state

-- A content_block_stop
unfoldable pub handle_stop : MessageState → Handled
handle_stop state =
    if is_empty (calls_of state)
    then goes_on state
    else sends (chunk "" (calls_of state) "" no_usage) state

module _ (decoders : Decoders) where
  -- The switch over the current event.
  unfoldable pub handle_data : MessageState → String → Handled
  handle_data state text =
      if state.current_event == "message_start"
      then goes_on state
      else if state.current_event == "ping"
      then goes_on state
      else if state.current_event == "message_stop"
      then ends
      else if state.current_event == "content_block_start"
      then goes_on (start_tool state (decoders.block_start text))
      else if state.current_event == "content_block_stop"
      then handle_stop state
      else if state.current_event == "content_block_delta"
      then handle_delta state (decoders.block_delta text)
      else if state.current_event == "message_delta"
      then handle_message state (decoders.message_delta text)
      else goes_on state

  unfoldable pub handle_line : MessageState → String → Handled
  handle_line state line =
      if line == ""
      then goes_on (record state { current_event = "" })
      else if has_prefix line "event: "
      then goes_on (record state { current_event = trim_prefix line "event: " })
      else if has_prefix line "data: "
      then handle_data state (trim_prefix line "data: ")
      else goes_on state

  module _ (delivery : Delivery) where
    -- The loop over the lines, where `n` chunks are sent.
    unfoldable pub read_messages : ℕ → MessageState → List String → List StreamChunk
    read_messages n state [] = at_the_end delivery
    read_messages n state (line ∷ lines) = elim (handle_line state line) [
      | goes_on next ↦ read_messages n next lines
      | ends ↦ []
      | sends c next ↦
          if delivery.taken n
          then c ∷ read_messages (suc n) next lines
          else last_words delivery context_done
    ]
