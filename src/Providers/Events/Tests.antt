-- ===== src/Providers/Events/Tests.antt =====
-- Runs of the streams and of the clients, and the theorems at concrete inputs.
use Prim.Native.Nat.{◌^◌}
use openbotstack_core.Base.{
  any, ℕ, String, true, false, not, ◌==◌, Option, none, some, List, [], ◌∷◌, ◌++◌, ◌≡◌, refl,
  if◌then◌else◌, ◌<◌, arith,
}
use openbotstack_core.Base.{length, get_elem?, has_prefix}
use openbotstack_core.Base.Int.{ℤ, pos, negsuc}
use openbotstack_core.Providers.{Delivery, StreamChunk, no_usage}
use openbotstack_core.Providers.Retries.{Exchange, reply}
use openbotstack_core.Providers.Answers.Embeddings.{embeddings-last}
use openbotstack_core.Providers.Answers.{embeddings, last_at}
use openbotstack_core.Providers.Deltas.{
  insert_at, ToolCallDelta, accumulate_all, nothing_accumulated, lookup_at, emit_calls,
}
use openbotstack_core.Providers.Deltas.Emitted.{emit_calls-gathered, gathered}
use openbotstack_core.Providers.Events.{StreamPayload}
use openbotstack_core.Providers.Messages.{
  build_from, start_tool, write_json, build_tool_calls, handle_message, handle_delta, handle_data,
  Decoders, MessageState, handle_line, sends, first_state, chunk,
}
use openbotstack_core.Providers.Messages.Sent.{chunk-calls, state_after}
use openbotstack_core.Providers.Messages.Calls.{calls_at, tool_of, starts}
use openbotstack_core.Providers.Messages.Told.{told_all}
use openbotstack_core.Providers.Clients.{ClientHost, create, client_embed, client_capabilities}
use openbotstack_core.Providers.Clients.Capabilities.{embed-capabilities, is_unsupported}

abbrev placed : List (ℤ × ℕ)
placed = (pos 1, 11) ∷ (pos 0, 10) ∷ (negsuc 0, 99) ∷ []

embeddings-last_example :
    (length (embeddings placed) ≡ length placed)
    × ((i : ℕ) → i < length placed → get_elem? (embeddings placed) i ≡ some (last_at i none placed))
embeddings-last_example = embeddings-last placed

abbrev delta : ℕ → String → String → ToolCallDelta
delta index name arguments = record {
  index = pos index;
  id = "";
  name = name;
  arguments = arguments;
}

abbrev deltas : List ToolCallDelta
deltas = delta 1 "read" "{" ∷ delta 0 "list" "{}" ∷ delta 1 "" "}" ∷ []

small : 3 < 2 ^ 63
small = omega arith

emit_calls-gathered_example :
    emit_calls (accumulate_all nothing_accumulated deltas) ≡ gathered 3 deltas
emit_calls-gathered_example =
    emit_calls-gathered 3 deltas small (omega arith, (omega arith, (omega arith, tt)))

abbrev decode : String → Option StreamPayload
decode text =
    if text == "{}"
    then some record {
      choices = record { content = "hi"; finish_reason = none; tool_calls = deltas } ∷ [];
      usage = none;
    }
    else none

abbrev delivery : Delivery
delivery = record { taken = λ _. true; room = true; scan_fails = false }

abbrev lines : List String
lines = "data: {}" ∷ "" ∷ ": comment" ∷ "data: {}" ∷ "data: [DONE]" ∷ "data: {}" ∷ []

abbrev decoders : Decoders
decoders = record {
  block_start =
      λ _. some (pos 1, some record { block_type = "tool_use"; id = "t1"; name = "read" });
  block_delta = λ _.
      some
        record { index = pos 1; delta_type = "input_json_delta"; text = ""; partial_json = "{}" };
  message_delta = λ _. some ("tool_use", none);
}

abbrev message_lines : List String
message_lines =
    "event: content_block_start" ∷ "data: {}" ∷ "" ∷ "event: content_block_delta" ∷ "data: {}"
    ∷ "event: message_delta" ∷ []

abbrev message_state : MessageState
message_state = record {
  tools = (pos 1, record { id = "t1"; name = "read"; json = "{}" }) ∷ [];
  order = pos 1 ∷ [];
  current_event = "message_delta";
}

abbrev message_chunk : StreamChunk
message_chunk =
    chunk "" (record { id = "t1"; name = "read"; arguments = "{}" } ∷ []) "tool_use" no_usage

message_sent :
    handle_line decoders (state_after decoders first_state message_lines) "data: {}"
    ≡ sends message_chunk message_state
unfolding handle_line state_after has_prefix handle_data handle_delta handle_message
    build_tool_calls write_json lookup_at start_tool insert_at build_from
message_sent = refl

chunk-calls_example :
    (message_chunk.tool_calls
      ≡ calls_at
          (λ i. tool_of i (told_all decoders "" (message_lines ++ "data: {}" ∷ [])))
          (starts (told_all decoders "" (message_lines ++ "data: {}" ∷ []))))
    × (length message_chunk.tool_calls
        ≡ length (starts (told_all decoders "" (message_lines ++ "data: {}" ∷ []))))
chunk-calls_example =
    chunk-calls decoders message_lines "data: {}" message_chunk message_state message_sent

abbrev exchange : Exchange
exchange = record { replies = λ _. reply 200 "[1]"; done_before = λ _. false; valid_address = true }

abbrev client_host : ClientHost
client_host = record {
  chat_response = λ _. none;
  anthropic_response = λ _. none;
  embed_response = λ _. some ((pos 0, 1 ∷ []) ∷ [], none);
}

embed-capabilities_example :
    is_unsupported (client_embed client_host exchange (create "modelscope" "" "key" "m") ("t" ∷ []))
    ≡ not (any (λ c. c == "embedding") (client_capabilities (create "modelscope" "" "key" "m")))
embed-capabilities_example =
    embed-capabilities client_host exchange "modelscope" "" "key" "m" ("t" ∷ [])
