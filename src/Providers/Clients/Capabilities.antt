-- ===== src/Providers/Clients/Capabilities.antt =====
-- ai/providers: which providers embed, and how often they ask.
use openbotstack_core.Providers.Answers.{anthropic_answer, chat_answer}
use openbotstack_core.Base.{
  ℕ, String, Bool, true, false, not, ◌==◌, Option, none, some, List, ◌≡◌, refl, if◌then◌else◌, inl,
  inr, ◌≤◌, arith,
}
use openbotstack_core.Base.{is_empty, any, nat_eq, Bool-cases}
use openbotstack_core.Base.Int.{ℤ, pos}
use openbotstack_core.Providers.{Outcome, failure, capability_not_supported}
use openbotstack_core.Providers.Retries.{Exchange, Reply, no_reply, unread, reply}
use openbotstack_core.Providers.Retries.Bounds.{count_sent, generate-sent}
use openbotstack_core.Providers.Clients.{
  refused, chat_answer, ClientHost, Client, openai_client, claude_client, create,
  client_capabilities, client_generate, client_embed, openai_embed, embed_reply, embed_answer,
  new_openai_provider, new_modelscope_provider, new_siliconflow_provider, new_claude_provider,
  new_openai_compatible,
}

module _ {A : Type 0} where
  abbrev pub is_unsupported : Outcome A → Bool
  is_unsupported (failure capability_not_supported) = true
  is_unsupported _ = false

  supported_either :
      (b : Bool) (x y : Outcome A)
      → is_unsupported x ≡ false
      → is_unsupported y ≡ false
      → is_unsupported (if b then x else y) ≡ false
  supported_either true x y h k = h
  supported_either false x y h k = k

module _ (host : ClientHost) (exchange : Exchange) where
  embed_answer-supported :
      (r : Option (List (ℤ × List ℕ) × Option (String × String)))
      → is_unsupported (embed_answer host exchange r) ≡ false
  unfolding embed_answer
  embed_answer-supported none = refl
  embed_answer-supported (some (found, some (message, error_type))) = refl
  embed_answer-supported (some (found, none)) = refl

  embed_reply-supported : (r : Reply) → is_unsupported (embed_reply host exchange r) ≡ false
  embed_reply-supported no_reply = refl
  embed_reply-supported (refused _) = refl
  embed_reply-supported (unread status) = refl
  embed_reply-supported (reply status body) =
      supported_either (nat_eq status 200) _ _ (embed_answer-supported (host.embed_response body))
        refl

  openai_embed-supported :
      (texts : List String) → is_unsupported (openai_embed host exchange texts) ≡ false
  unfolding openai_embed
  openai_embed-supported texts = supported_either (is_empty texts) _ _ refl (
      supported_either exchange.valid_address _ _ (embed_reply-supported (exchange.replies 0)) refl)

  -- Whether a client says that it embeds, and does.
  abbrev HonestAbout : List String → Client → Type 0
  HonestAbout texts client =
      is_unsupported (client_embed host exchange client texts)
      ≡ not (any (λ c. c == "embedding") (client_capabilities client))

  honest_either :
      (texts : List String) (b : Bool) (x y : Client)
      → HonestAbout texts x
      → HonestAbout texts y
      → HonestAbout texts (if b then x else y)
  honest_either texts true x y h k = h
  honest_either texts false x y h k = k

  -- A provider of the factory refuses to embed, whatever the texts, if the capability is not one of
  -- those that it names, and only then.
  pub embed-capabilities :
      (name base_url api_key model : String) (texts : List String)
      → is_unsupported (client_embed host exchange (create name base_url api_key model) texts)
        ≡ not
            (any (λ c. c == "embedding") (client_capabilities (create name base_url api_key model)))
  unfolding create client_embed client_capabilities new_openai_provider new_modelscope_provider
      new_siliconflow_provider new_claude_provider new_openai_compatible
  embed-capabilities name base_url api_key model texts =
      honest_either texts (name == "modelscope") _ _ refl (
        honest_either texts (name == "siliconflow") _ _ refl (
          honest_either texts (name == "claude") _ _ refl
            (supported_either (api_key == "") _ _ refl (openai_embed-supported texts))))

  -- A provider of the factory sends one request at most to generate.
  client_generate-sent : (client : Client) → count_sent (client_generate host exchange client).1 ≤ 1
  unfolding client_generate
  client_generate-sent (openai_client p) = elim (Bool-cases (p.api_key == "")) [
    | inl h ↦ rw h (omega arith)
    | inr h ↦
        rw h (generate-sent (λ body. chat_answer (host.chat_response body)) exchange (pos 0)).0
  ]
  client_generate-sent (claude_client p) = elim (Bool-cases (p.api_key == "")) [
    | inl h ↦ rw h (omega arith)
    | inr h ↦
        rw h
          (generate-sent (λ body. anthropic_answer (host.anthropic_response body)) exchange
            (pos 0)).0
  ]
