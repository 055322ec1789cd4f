-- ===== src/Providers/Requests.antt =====
-- ai/providers: the bodies of the requests, in the format of OpenAI and in that of Anthropic.
use openbotstack_core.Base.{
  ℕ, String, ◌<>◌, Bool, true, Option, none, some, List, [], ◌∷◌, if◌then◌else◌, ◌==◌, map,
  contains,
}
use openbotstack_core.Base.Int.{ℤ, pos, ltb_ℤ}
use openbotstack_core.Providers.{
  ContentBlock, Message, ToolDefinition, ToolChoice, no_choice, other_choice, choice_mode,
  choice_specific, GenerateRequest,
}
use openbotstack_core.Providers.Content.{image_ref, flatten_to_text}

-- What the tool_choice of a request holds: nothing, a text, or an object.
pub data OpenAiChoice : Type 0 where
  openai_default : OpenAiChoice
  openai_mode : String → OpenAiChoice
  openai_function : String → OpenAiChoice

pub data AnthropicChoice : Type 0 where
  anthropic_default : AnthropicChoice
  anthropic_mode : String → AnthropicChoice
  anthropic_any : AnthropicChoice
  anthropic_tool : String → AnthropicChoice

-- `mapToolChoiceToOpenAI`
unfoldable pub map_tool_choice_to_openai : ToolChoice → OpenAiChoice
map_tool_choice_to_openai no_choice = openai_default
map_tool_choice_to_openai (choice_mode v) =
    if v == "auto"
    then openai_mode "auto"
    else if v == "required"
    then openai_mode "required"
    else if v == "none"
    then openai_mode "none"
    else openai_default
map_tool_choice_to_openai (choice_specific name) = openai_function name
map_tool_choice_to_openai other_choice = openai_default

-- `mapToolChoiceToAnthropic`
unfoldable pub map_tool_choice_to_anthropic : ToolChoice → AnthropicChoice
map_tool_choice_to_anthropic no_choice = anthropic_default
map_tool_choice_to_anthropic (choice_mode v) =
    if v == "auto"
    then anthropic_mode "auto"
    else if v == "required"
    then anthropic_any
    else if v == "none"
    then anthropic_mode "none"
    else anthropic_default
map_tool_choice_to_anthropic (choice_specific name) = anthropic_tool name
map_tool_choice_to_anthropic other_choice = anthropic_default

-- `openAIContentBlock`
pub data OpenAiBlock : Type 0 where
  text_block : String → OpenAiBlock
  image_block : String → OpenAiBlock

-- The content of a message: null, a text, or a list of blocks.
pub data OpenAiContent : Type 0 where
  no_content : OpenAiContent
  plain_text : String → OpenAiContent
  blocks : List OpenAiBlock → OpenAiContent

-- The loop of `contentsToOpenAI`, which drops a block of another type.
unfoldable pub openai_blocks : List ContentBlock → List OpenAiBlock
openai_blocks [] = []
openai_blocks (c ∷ cs) =
    let rest = openai_blocks cs in
    if c.block_type == "text"
    then text_block c.text ∷ rest
    else if c.block_type == "image"
    then image_block (image_ref c) ∷ rest
    else rest

-- `contentsToOpenAI`
unfoldable pub contents_to_openai : List ContentBlock → OpenAiContent
contents_to_openai [] = no_content
contents_to_openai (c ∷ []) =
    if c.block_type == "text" then plain_text c.text else blocks (openai_blocks (c ∷ []))
contents_to_openai (c ∷ d ∷ cs) = blocks (openai_blocks (c ∷ d ∷ cs))

-- `chatMessage`
pub record ChatMessage : Type 0 where
  pub role : String
  pub content : OpenAiContent
  pub name : String

-- `buildOpenAIMessages`
unfoldable pub build_openai_messages : GenerateRequest → List ChatMessage
build_openai_messages req =
    map (λ m. record { role = m.role; content = contents_to_openai m.contents; name = m.name })
      req.messages

-- `chatRequest` and `streamChatRequest`; a tool is the definition itself.
pub record ChatRequest : Type 0 where
  pub model : String
  pub messages : List ChatMessage
  pub max_tokens : ℤ
  pub temperature : Option ℕ
  pub tools : List ToolDefinition
  pub tool_choice : OpenAiChoice
  pub parallel_tool_calls : Option Bool
  pub thinking_disabled : Bool
  pub streamed : Bool

-- `anthropicMessage`
pub record AnthropicMessage : Type 0 where
  pub role : String
  pub content : String

-- `anthropicMessagesRequest`
pub record AnthropicMessagesRequest : Type 0 where
  pub model : String
  pub max_tokens : ℤ
  pub system : String
  pub messages : List AnthropicMessage
  pub tools : List ToolDefinition
  pub tool_choice : AnthropicChoice
  pub disable_parallel_use : Option Bool
  pub streamed : Bool
  pub temperature : Option ℕ

-- `strings.Join(parts, "\n")`
unfoldable pub join_lines : List String → String
join_lines [] = ""
join_lines (p ∷ []) = p
join_lines (p ∷ q ∷ ps) = p <> "\n" <> join_lines (q ∷ ps)

-- The loop that separates the system messages from those of the conversation.
unfoldable pub split_system : List Message → List String × List AnthropicMessage
split_system [] = ([], [])
split_system (m ∷ ms) =
    let (system, conversation) = split_system ms in
    if m.role == "system"
    then (flatten_to_text m.contents ∷ system, conversation)
    else (system, record { role = m.role; content = flatten_to_text m.contents } ∷ conversation)

-- `strings.ToLower`, and the test of a float64 for being over zero.
module _ (to_lower : String → String) (positive : ℕ → Bool) where
  -- The body that `openAICompatibleGenerate` and `openAICompatibleStream` send.
  unfoldable pub openai_request : Bool → String → GenerateRequest → ChatRequest
  openai_request streamed model req = record {
    model = model;
    messages = build_openai_messages req;
    max_tokens = if ltb_ℤ (pos 0) req.max_tokens then req.max_tokens else pos 0;
    temperature = if positive req.temperature then some req.temperature else none;
    tools = req.tools;
    tool_choice = map_tool_choice_to_openai req.tool_choice;
    parallel_tool_calls = req.parallel_tool_calls;
    thinking_disabled = contains (to_lower model) "qwen";
    streamed = streamed;
  }

  -- The body that `anthropicMessagesGenerate` and `anthropicMessagesStream` send.
  unfoldable pub anthropic_request : Bool → String → GenerateRequest → AnthropicMessagesRequest
  anthropic_request streamed model req = record {
    model = model;
    max_tokens = if ltb_ℤ (pos 0) req.max_tokens then req.max_tokens else pos 4096;
    system = join_lines (split_system req.messages).0;
    messages = (split_system req.messages).1;
    tools = req.tools;
    tool_choice = map_tool_choice_to_anthropic req.tool_choice;
    disable_parallel_use = elim req.parallel_tool_calls [
      | none ↦ none
      | some parallel ↦ if parallel then none else some true
    ];
    streamed = streamed;
    temperature = if positive req.temperature then some req.temperature else none;
  }
