-- ===== src/Providers/Clients.antt =====
-- ai/providers: the providers that the factory creates.
use openbotstack_core.Base.{
  ◌<>◌, ℕ, String, Bool, true, false, ◌==◌, Option, none, some, List, [], ◌∷◌, if◌then◌else◌,
}
use openbotstack_core.Base.{is_empty, nat_eq}
use openbotstack_core.Base.Int.{ℤ, pos}
use openbotstack_core.Providers.{
  GenerateResponse, Outcome, finished, failure, not_configured, capability_not_supported, no_input,
  http_request, read_response, create_request, unmarshal_response, api_error, embed_failed,
}
use openbotstack_core.Providers.Answers.{
  ChatResponse, chat_answer, AnthropicResponse, anthropic_answer, embeddings,
}
use openbotstack_core.Providers.Retries.{
  Exchange, Act, Reply, no_reply, refused, unread, reply, generate, openai_stream, anthropic_stream,
}
pub mod Capabilities

-- `OpenAICompatibleProvider`
pub record OpenAiProvider : Type 0 where
  pub base_url : String
  pub api_key : String
  pub model_name : String
  pub id_prefix : String
  pub capabilities : List String
  pub embed_model : String

-- `ClaudeProvider`
pub record ClaudeProvider : Type 0 where
  pub base_url : String
  pub api_key : String
  pub model_name : String

-- A provider of the factory.
pub data Client : Type 0 where
  openai_client : OpenAiProvider → Client
  claude_client : ClaudeProvider → Client

abbrev pub or_default : String → String → String
or_default url default_url = if url == "" then default_url else url

-- `newOpenAICompatible`
unfoldable pub new_openai_compatible :
    String → String → String → String → String → List String → String → OpenAiProvider
new_openai_compatible base_url default_url api_key model_name id_prefix caps embed_model = record {
  base_url = or_default base_url default_url;
  api_key = api_key;
  model_name = model_name;
  id_prefix = id_prefix;
  capabilities = caps;
  embed_model = embed_model;
}

-- `NewOpenAIProvider`, `NewModelScopeProvider` and `NewSiliconFlowProvider`
unfoldable pub new_openai_provider : String → String → String → OpenAiProvider
new_openai_provider base_url api_key model_name =
    new_openai_compatible base_url "https://api.openai.com/v1" api_key model_name "openai"
      ("text_generation" ∷ "tool_calling" ∷ "json_mode" ∷ "vision" ∷ "embedding" ∷ [])
      "text-embedding-3-small"

unfoldable pub new_modelscope_provider : String → String → String → OpenAiProvider
new_modelscope_provider base_url api_key model_name =
    new_openai_compatible base_url "https://api-inference.modelscope.cn/v1" api_key model_name
      "modelscope" ("text_generation" ∷ "tool_calling" ∷ []) ""

unfoldable pub new_siliconflow_provider : String → String → String → OpenAiProvider
new_siliconflow_provider base_url api_key model_name =
    new_openai_compatible base_url "https://api.siliconflow.cn/v1" api_key model_name "siliconflow"
      ("text_generation" ∷ "tool_calling" ∷ []) ""

-- `NewClaudeProvider`
unfoldable pub new_claude_provider : String → String → String → ClaudeProvider
new_claude_provider base_url api_key model_name = record {
  base_url = or_default base_url "https://api.anthropic.com/v1";
  api_key = api_key;
  model_name = model_name;
}

-- `Create` of the factory
unfoldable pub create : String → String → String → String → Client
create name base_url api_key model =
    if name == "modelscope"
    then openai_client (new_modelscope_provider base_url api_key model)
    else if name == "siliconflow"
    then openai_client (new_siliconflow_provider base_url api_key model)
    else if name == "claude"
    then claude_client (new_claude_provider base_url api_key model)
    else openai_client (new_openai_provider base_url api_key model)

-- `ID`
unfoldable pub client_id : Client → String
client_id (openai_client p) = p.id_prefix <> "/" <> p.model_name
client_id (claude_client p) = "anthropic/" <> p.model_name

-- `Capabilities`
unfoldable pub client_capabilities : Client → List String
client_capabilities (openai_client p) = p.capabilities
client_capabilities (claude_client p) =
    "text_generation" ∷ "tool_calling" ∷ "vision" ∷ "streaming" ∷ []

-- What the package takes from others: json.Unmarshal into the responses, and into `embedResponse`,
-- which has its data and an error.
pub record ClientHost : Type 0 where
  pub chat_response : String → Option ChatResponse
  pub anthropic_response : String → Option AnthropicResponse
  pub embed_response : String → Option (List (ℤ × List ℕ) × Option (String × String))

module _ (host : ClientHost) (exchange : Exchange) where
  -- `openAICompatibleGenerate` and `anthropicMessagesGenerate`, once the body is built.
  abbrev pub openai_generate : ℤ → Outcome GenerateResponse × List Act
  openai_generate max_retries =
      generate (λ body. chat_answer (host.chat_response body)) exchange max_retries

  abbrev pub anthropic_generate : ℤ → Outcome GenerateResponse × List Act
  anthropic_generate max_retries =
      generate (λ body. anthropic_answer (host.anthropic_response body)) exchange max_retries

  -- `Generate`, which asks for no repetition; a provider without a key sends nothing.
  unfoldable pub client_generate : Client → Outcome GenerateResponse × List Act
  client_generate (openai_client p) =
      if p.api_key == "" then (failure not_configured, []) else openai_generate (pos 0)
  client_generate (claude_client p) =
      if p.api_key == "" then (failure not_configured, []) else anthropic_generate (pos 0)

  -- `GenerateStream`, up to the opening of the stream.
  unfoldable pub client_stream : Client → Outcome ℕ
  client_stream (openai_client p) =
      if p.api_key == "" then failure not_configured else openai_stream exchange (pos 0)
  client_stream (claude_client p) =
      if p.api_key == "" then failure not_configured else anthropic_stream exchange (pos 0)

  -- What `openAICompatibleEmbed` makes of the body of a reply.
  unfoldable pub embed_answer :
      Option (List (ℤ × List ℕ) × Option (String × String)) → Outcome (List (Option (List ℕ)))
  embed_answer none = failure unmarshal_response
  embed_answer (some (found, some (message, error_type))) = failure (api_error message error_type)
  embed_answer (some (found, none)) = finished (embeddings found)

  abbrev pub embed_reply : Reply → Outcome (List (Option (List ℕ)))
  embed_reply no_reply = failure http_request
  embed_reply (refused _) = failure http_request
  embed_reply (unread status) = failure read_response
  embed_reply (reply status body) =
      if nat_eq status 200
      then embed_answer (host.embed_response body)
      else failure (embed_failed status)

  -- `openAICompatibleEmbed`, where a number of an embedding is the bits of its float32.
  unfoldable pub openai_embed : List String → Outcome (List (Option (List ℕ)))
  openai_embed texts =
      if is_empty texts
      then failure no_input
      else if exchange.valid_address
      then embed_reply (exchange.replies 0)
      else failure create_request

  -- `Embed`
  unfoldable pub client_embed : Client → List String → Outcome (List (Option (List ℕ)))
  client_embed (openai_client p) texts =
      if p.embed_model == ""
      then failure capability_not_supported
      else if p.api_key == ""
      then failure not_configured
      else openai_embed texts
  client_embed (claude_client p) texts = failure capability_not_supported
