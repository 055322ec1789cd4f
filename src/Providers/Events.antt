-- ===== src/Providers/Events.antt =====
-- ai/providers/streaming.go: the lines of a stream of OpenAI and the chunks that are sent for them.
use openbotstack_core.Base.{ℕ, suc, String, ◌==◌, Option, none, some, List, [], ◌∷◌, if◌then◌else◌}
use openbotstack_core.Base.{has_prefix, trim_prefix}
use openbotstack_core.Providers.{
  TokenUsage, no_usage, StreamChunk, no_error, context_done, Delivery, last_words, at_the_end,
}
use openbotstack_core.Providers.Deltas.{ToolCallDelta, Accumulated, accumulate_all, emit_calls}
pub mod Chunks
mod Tests

-- `streamChoice` with its delta.
pub record StreamChoice : Type 0 where
  pub content : String
  pub finish_reason : Option String
  pub tool_calls : List ToolCallDelta

-- `streamChunk`
pub record StreamPayload : Type 0 where
  pub choices : List StreamChoice
  pub usage : Option TokenUsage

abbrev pub or_empty : Option String → String
or_empty none = ""
or_empty (some s) = s

abbrev pub or_no_usage : Option TokenUsage → TokenUsage
or_no_usage none = no_usage
or_no_usage (some usage) = usage

-- The deltas of the first choice.
abbrev pub deltas_of : List StreamChoice → List ToolCallDelta
deltas_of [] = []
deltas_of (choice ∷ more) = choice.tool_calls

-- The chunk for a payload, where `acc` has the calls with those of the payload.
unfoldable pub chunk_of : Accumulated → StreamPayload → StreamChunk
chunk_of acc payload = elim payload.choices [
  | [] ↦ record {
    content = "";
    tool_calls = [];
    finish_reason = "";
    usage = or_no_usage payload.usage;
    error = no_error;
  }
  | choice ∷ more ↦ record {
    content = choice.content;
    tool_calls = emit_calls acc;
    finish_reason = or_empty choice.finish_reason;
    usage = or_no_usage payload.usage;
    error = no_error;
  }
]

-- The data of a line that has some.
abbrev pub data_of : String → Option String
data_of line =
    if line == ""
    then none
    else if has_prefix line "data: "
    then some (trim_prefix line "data: ")
    else none

-- What a line asks for.
pub data LineEvent : Type 0 where
  passed_over done : LineEvent
  payload : StreamPayload → LineEvent

abbrev pub decoded : Option StreamPayload → LineEvent
decoded none = passed_over
decoded (some p) = payload p

-- json.Unmarshal into `streamChunk` is `decode`.
module _ (decode : String → Option StreamPayload) where
  unfoldable pub line_event : String → LineEvent
  line_event line = elim (data_of line) [
    | none ↦ passed_over
    | some text ↦ if text == "[DONE]" then done else decoded (decode text)
  ]

  module _ (delivery : Delivery) where
    -- The loop over the lines, where `n` chunks are sent.
    unfoldable pub read_lines : ℕ → Accumulated → List String → List StreamChunk
    read_lines n acc [] = at_the_end delivery
    read_lines n acc (line ∷ lines) = elim (line_event line) [
      | passed_over ↦ read_lines n acc lines
      | done ↦ []
      | payload p ↦
          let now = accumulate_all acc (deltas_of p.choices) in
          if delivery.taken n
          then chunk_of now p ∷ read_lines (suc n) now lines
          else last_words delivery context_done
    ]
