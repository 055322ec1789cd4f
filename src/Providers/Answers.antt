-- ===== src/Providers/Answers.antt =====
-- ai/providers: what the bodies of the replies become, and the placing of embeddings.
use openbotstack_core.Base.{
  nat_eq, length, ltb, ◌<>◌, ℕ, zero, suc, String, not, ◌&&◌, ◌==◌, Option, none, some, List, [],
  ◌∷◌, ◌++◌, if◌then◌else◌, ◌+◌,
}
use Prim.Native.Nat.{◌%◌, ◌^◌}
use openbotstack_core.Base.Int.{ℤ, pos, negsuc}
use openbotstack_core.Providers.{
  ToolCall, TokenUsage, GenerateResponse, Outcome, finished, failure, unmarshal_response, api_error,
}
pub mod Embeddings

-- `chatChoice` with its message.
pub record ChatChoice : Type 0 where
  pub content : String
  pub reasoning_content : String
  pub tool_calls : List ToolCall
  pub finish_reason : String

-- `chatResponse`, whose error has a message and a type.
pub record ChatResponse : Type 0 where
  pub choices : List ChatChoice
  pub usage : TokenUsage
  pub error : Option (String × String)

-- The first choice of a response: its reasoning stands in for a content that is empty.
unfoldable pub choice_response : TokenUsage → List ChatChoice → GenerateResponse
choice_response usage [] = record {
  content = "";
  tool_calls = [];
  usage = usage;
  finish_reason = "";
}
choice_response usage (choice ∷ more) = record {
  content =
      if choice.content == "" && not (choice.reasoning_content == "")
      then choice.reasoning_content
      else choice.content;
  tool_calls = choice.tool_calls;
  usage = usage;
  finish_reason = choice.finish_reason;
}

-- What `openAICompatibleGenerate` makes of a body, as json.Unmarshal reads it.
unfoldable pub chat_answer : Option ChatResponse → Outcome GenerateResponse
chat_answer none = failure unmarshal_response
chat_answer (some resp) = elim resp.error [
  | some (message, error_type) ↦ failure (api_error message error_type)
  | none ↦ finished (choice_response resp.usage resp.choices)
]

-- `anthropicContentBlock`, where the input is the text of the JSON value.
pub record AnthropicBlock : Type 0 where
  pub block_type : String
  pub text : String
  pub id : String
  pub name : String
  pub input : String

-- `anthropicMessagesResponse`, whose error has a message and a type.
pub record AnthropicResponse : Type 0 where
  pub content : List AnthropicBlock
  pub stop_reason : String
  pub input_tokens : ℕ
  pub output_tokens : ℕ
  pub error : Option (String × String)

-- The loop over the blocks, from the content and the tool calls so far.
unfoldable pub add_blocks : String × List ToolCall → List AnthropicBlock → String × List ToolCall
add_blocks acc [] = acc
add_blocks (content, calls) (b ∷ bs) =
    if b.block_type == "text"
    then add_blocks (content <> b.text, calls) bs
    else if b.block_type == "tool_use"
    then add_blocks
        (content, calls ++ record { id = b.id; name = b.name; arguments = b.input } ∷ []) bs
    else add_blocks (content, calls) bs

-- What `anthropicMessagesGenerate` makes of a body.
unfoldable pub anthropic_answer : Option AnthropicResponse → Outcome GenerateResponse
anthropic_answer none = failure unmarshal_response
anthropic_answer (some resp) = elim resp.error [
  | some (message, error_type) ↦ failure (api_error message error_type)
  | none ↦
      let (content, calls) = add_blocks ("", []) resp.content in
      finished record {
        content = content;
        tool_calls = calls;
        usage = record {
          prompt_tokens = resp.input_tokens;
          completion_tokens = resp.output_tokens;
          total_tokens = (resp.input_tokens + resp.output_tokens) % 2 ^ 64;
        };
        finish_reason = resp.stop_reason;
      }
]

module _ {E : Type 0} where
  -- `make([][]float32, n)`: nil at each place.
  abbrev pub no_embeddings : ℕ → List (Option E)
  no_embeddings zero = []
  no_embeddings (suc n) = none ∷ no_embeddings n

  -- `results[index] = embedding`, where the index is in range.
  unfoldable pub set_at : List (Option E) → ℕ → E → List (Option E)
  set_at [] i e = []
  set_at (r ∷ rs) zero e = some e ∷ rs
  set_at (r ∷ rs) (suc i) e = r ∷ set_at rs i e

  -- The body of the loop of `openAICompatibleEmbed`, which leaves out an index out of range.
  unfoldable pub place : List (Option E) → ℤ × E → List (Option E)
  place results (negsuc n, e) = results
  place results (pos i, e) = if ltb i (length results) then set_at results i e else results

  unfoldable pub place_all : List (Option E) → List (ℤ × E) → List (Option E)
  place_all results [] = results
  place_all results (d ∷ ds) = place_all (place results d) ds

  -- The embeddings of a reply.
  unfoldable pub embeddings : List (ℤ × E) → List (Option E)
  embeddings found = place_all (no_embeddings (length found)) found

  -- The last embedding of an index.
  abbrev pub last_at : ℕ → Option E → List (ℤ × E) → Option E
  last_at i before [] = before
  last_at i before ((pos j, e) ∷ ds) = last_at i (if nat_eq i j then some e else before) ds
  last_at i before ((negsuc j, e) ∷ ds) = last_at i before ds
