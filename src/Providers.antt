-- ===== src/Providers.antt =====
-- ai/types and ai/providers: requests to a model and what comes back.
use openbotstack_core.Base.{ℕ, String, Bool, Option, List, [], ◌∷◌, if◌then◌else◌}
use openbotstack_core.Base.Int.{ℤ}
use openbotstack_core.Validation.{JsonSchema}
pub mod Content
pub mod Requests
pub mod Retries
pub mod Answers
pub mod Deltas
pub mod Events
pub mod Messages
pub mod Clients
mod Tests

-- `ContentBlock`
pub record ContentBlock : Type 0 where
  pub block_type : String
  pub text : String
  pub image_url : String
  pub base64 : String
  pub media : String

-- `Message`
pub record Message : Type 0 where
  pub role : String
  pub contents : List ContentBlock
  pub name : String

-- `ToolDefinition`
pub record ToolDefinition : Type 0 where
  pub name : String
  pub description : String
  pub parameters : Option JsonSchema

-- The values of `ToolChoice`: nil, a `ToolChoiceMode`, a `ToolChoiceSpecific`, or any other.
pub data ToolChoice : Type 0 where
  no_choice other_choice : ToolChoice
  choice_mode : String → ToolChoice
  choice_specific : String → ToolChoice

-- `GenerateRequest`, where a temperature is the bits of its float64.
pub record GenerateRequest : Type 0 where
  pub messages : List Message
  pub tools : List ToolDefinition
  pub max_tokens : ℤ
  pub temperature : ℕ
  pub tool_choice : ToolChoice
  pub parallel_tool_calls : Option Bool

-- `ToolCall`
pub record ToolCall : Type 0 where
  pub id : String
  pub name : String
  pub arguments : String

-- `TokenUsage`, where an int is its 64-bit word.
pub record TokenUsage : Type 0 where
  pub prompt_tokens : ℕ
  pub completion_tokens : ℕ
  pub total_tokens : ℕ

-- `GenerateResponse` without its latency.
pub record GenerateResponse : Type 0 where
  pub content : String
  pub tool_calls : List ToolCall
  pub usage : TokenUsage
  pub finish_reason : String

-- The errors of a request; `no_error` is nil.
pub data ProviderError : Type 0 where
  no_error context_done create_request http_request read_response unmarshal_response : ProviderError
  api_error : String → String → ProviderError
  authentication_failed : ℕ → ProviderError
  rate_limited : ProviderError
  provider_unavailable : ℕ → ProviderError
  bad_request : ℕ → ProviderError
  failed_with_status : ℕ → ProviderError
  embed_failed : ℕ → ProviderError
  failed_after : ℕ → ProviderError → ProviderError
  unavailable : ProviderError → ProviderError
  stream_read_error not_configured capability_not_supported no_input : ProviderError

-- A result, or the error.
pub data Outcome {ℓ} (A : Type ℓ) : Type ℓ where
  finished : A → Outcome A
  failure : ProviderError → Outcome A

abbrev pub no_usage : TokenUsage
no_usage = record { prompt_tokens = 0; completion_tokens = 0; total_tokens = 0 }

-- `StreamChunk`
pub record StreamChunk : Type 0 where
  pub content : String
  pub tool_calls : List ToolCall
  pub finish_reason : String
  pub usage : TokenUsage
  pub error : ProviderError

abbrev pub error_chunk : ProviderError → StreamChunk
error_chunk e = record {
  content = "";
  tool_calls = [];
  finish_reason = "";
  usage = no_usage;
  error = e;
}

-- What happens to the channel of a stream: whether each chunk is taken before the context ends, whether
-- the buffer has room for an error, and whether the scanner stops at an error.
pub record Delivery : Type 0 where
  pub taken : ℕ → Bool
  pub room : Bool
  pub scan_fails : Bool

-- An error is sent without waiting for it to be taken.
abbrev pub last_words : Delivery → ProviderError → List StreamChunk
last_words delivery e = if delivery.room then error_chunk e ∷ [] else []

-- What is sent after the last line.
abbrev pub at_the_end : Delivery → List StreamChunk
at_the_end delivery = if delivery.scan_fails then last_words delivery stream_read_error else []
