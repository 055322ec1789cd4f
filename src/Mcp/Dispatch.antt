-- ===== src/Mcp/Dispatch.antt =====
-- server.go: every request has one answer, to its ID.
use openbotstack_core.Base.{
  eq_iff, ap, String, none, true, false, not, ◌==◌, Option, some, List, [], ◌∷◌, ◌≡◌, refl,
  if◌then◌else◌, inl, inr,
}
use openbotstack_core.Base.{is_some, All, map, Option-cases, Bool-cases, any}
use openbotstack_core.Base.Int.{ℤ, negsuc}
use openbotstack_core.Mcp.{
  ToolCallParams, JsonRpcRequest, JsonRpcResponse, Server, Tool, with_schema, Called, call_done,
  call_failed, answer_of, or_no_arguments, handle_request, handle_initialize, handle_tools_list,
  handle_tools_call, McpResult, tool_list,
}

-- Every tool that a result lists has a schema.
abbrev pub HasSchemas : Option McpResult → Type 0
HasSchemas (some (tool_list tools)) = All (λ t. is_some t.input_schema ≡ true) tools
HasSchemas _ = Unit

All-schemas : (ts : List Tool) → All (λ t. is_some t.input_schema ≡ true) (map with_schema ts)
All-schemas [] = tt
All-schemas (t ∷ ts) = (refl, All-schemas ts)

-- The methods of the server.
abbrev pub methods : List String
methods = "initialize" ∷ "tools/list" ∷ "tools/call" ∷ []

-- The code of the error of a call: -32602 where the parameters do not decode or name no tool.
abbrev pub call_code : Option ToolCallParams → Option ℤ
call_code none = some (negsuc 32601)
call_code (some params) = if params.name == "" then some (negsuc 32601) else none

-- An answer has the ID of the request, an error with the code, if there is one, and a result if there
-- is none; every tool that it lists has a schema.
abbrev pub Answers : JsonRpcRequest → Option ℤ → JsonRpcResponse → Type 0
Answers req code resp =
    (resp.id ≡ req.id)
    × ((resp.error ≡ code) × ((is_some resp.result ≡ not (is_some code)) × HasSchemas resp.result))

answer_of-Answers : (req : JsonRpcRequest) (c : Called) → Answers req none (answer_of req.id c)
answer_of-Answers req (call_done result) = (refl, (refl, (refl, tt)))
answer_of-Answers req (call_failed message) = (refl, (refl, (refl, tt)))

module _ (server : Server) where
  -- The code of the error of a request: -32601 for an unknown method.
  abbrev pub error_code : JsonRpcRequest → Option ℤ
  error_code req =
      if not (any (λ m. req.method == m) methods)
      then some (negsuc 32600)
      else if req.method == "tools/call"
      then call_code (server.read_params req.params)
      else none

  handle_tools_call-Answers :
      (req : JsonRpcRequest)
      → Answers req (call_code (server.read_params req.params)) (handle_tools_call server req)
  unfolding handle_tools_call
  handle_tools_call-Answers req = elim (Option-cases (server.read_params req.params)) [
    | inl e ↦ rw (e, handle_tools_call) (refl, (refl, (refl, tt)))
    | inr (params, e) ↦ elim (Bool-cases (params.name == "")) [
      | inl n ↦ rw (e, n, handle_tools_call) (refl, (refl, (refl, tt)))
      | inr n ↦
          rw (e, n, handle_tools_call)
            (answer_of-Answers req
              (server.call_tool params.name (or_no_arguments params.arguments)))
    ]
  ]

  -- Every request is answered under its ID. The answer is the error -32601 exactly if the method is
  -- not one of the three, -32602 exactly if it is a call whose parameters do not decode or name no
  -- tool, and a result otherwise, also if the provider returns an error or nil; every tool of a list has
  -- a schema.
  pub handle_request-Answers :
      (req : JsonRpcRequest) → Answers req (error_code req) (handle_request server req)
  unfolding handle_request handle_initialize handle_tools_list
  handle_request-Answers req = elim (Bool-cases (req.method == "tools/call")) [
    | inl c ↦
        let same : req.method ≡ "tools/call" = (eq_iff req.method "tools/call").0 c in
        let not_first : (req.method == "initialize") ≡ false = ap (λ m. m == "initialize") same in
        let not_second : (req.method == "tools/list") ≡ false = ap (λ m. m == "tools/list") same in
        rw (not_first, not_second, c) (handle_tools_call-Answers req)
    | inr c ↦ elim (Bool-cases (req.method == "initialize")) [
      | inl a ↦ rw (c, a) (refl, (refl, (refl, tt)))
      | inr a ↦ elim (Bool-cases (req.method == "tools/list")) [
        | inl b ↦ rw (c, a, b) (refl, (refl, (refl, All-schemas server.list_tools)))
        | inr b ↦ rw (c, a, b) (refl, (refl, (refl, tt)))
      ]
    ]
  ]
