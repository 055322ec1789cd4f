-- ===== src/Mcp.antt =====
-- mcp/server.go and the messages of mcp/types.go: the dispatch of a JSON-RPC request.
use openbotstack_core.Base.{
  ℕ, zero, suc, String, Bool, true, false, not, ◌&&◌, ◌||◌, ◌==◌, Option, none, some, List, [], ◌∷◌,
  ◌++◌, ◌≡◌, refl, sym, ap, ◌∙◌, if◌then◌else◌, ◌⊎◌, inl, inr, ◌≤◌, ◌<◌, ◌+◌, arith,
}
use openbotstack_core.Base.{Dict, map}
use openbotstack_core.Base.Int.{ℤ, negsuc}
use openbotstack_core.Value.{Value, string, object, field, end_fields}
pub mod Dispatch
mod Tests

-- `JSONRPCRequest` without its version.
pub record JsonRpcRequest : Type 0 where
  pub id : Value
  pub method : String
  pub params : Value

-- `Tool`, whose schema may be nil.
pub record Tool : Type 0 where
  pub name : String
  pub description : String
  pub input_schema : Option Value

-- `ToolCallResult`, by the texts of its content.
pub record ToolCallResult : Type 0 where
  pub content : List String
  pub is_error : Bool

-- The results of the three methods; the pointer of a call that returns no error may be nil.
pub data McpResult : Type 0 where
  initialized : McpResult
  tool_list : List Tool → McpResult
  call_result : Option ToolCallResult → McpResult

-- `JSONRPCResponse` without its version: an ID, and a result or the code of an error.
pub record JsonRpcResponse : Type 0 where
  pub id : Value
  pub result : Option McpResult
  pub error : Option ℤ

-- `ErrCodeMethodNotFound` and `ErrCodeInvalidParams`
abbrev pub method_not_found : ℤ
method_not_found = negsuc 32600

abbrev pub invalid_params : ℤ
invalid_params = negsuc 32601

-- What CallTool returns: a pointer to a result, which may be nil, or the text of an error.
pub data Called : Type 0 where
  call_done : Option ToolCallResult → Called
  call_failed : String → Called

-- `ToolCallParams`
pub record ToolCallParams : Type 0 where
  pub name : String
  pub arguments : Option (Dict Value)

-- The tool provider, and json.Marshal followed by json.Unmarshal into `ToolCallParams`.
pub record Server : Type 0 where
  pub list_tools : List Tool
  pub call_tool : String → Dict Value → Called
  pub read_params : Value → Option ToolCallParams

abbrev pub with_result : Value → McpResult → JsonRpcResponse
with_result id result = record { id = id; result = some result; error = none }

abbrev pub with_error : Value → ℤ → JsonRpcResponse
with_error id code = record { id = id; result = none; error = some code }

-- A tool without a schema has that of any object.
abbrev pub schema_or_any : Option Value → Value
schema_or_any none = object (field "type" (string "object") end_fields)
schema_or_any (some schema) = schema

abbrev pub with_schema : Tool → Tool
with_schema tool = record tool { input_schema = some (schema_or_any tool.input_schema) }

abbrev pub or_no_arguments : Option (Dict Value) → Dict Value
or_no_arguments none = []
or_no_arguments (some args) = args

abbrev pub answer_of : Value → Called → JsonRpcResponse
answer_of id (call_done result) = with_result id (call_result result)
answer_of id (call_failed message) =
    with_result id (call_result (some (record { content = message ∷ []; is_error = true })))

module _ (server : Server) where
  -- `handleInitialize`
  unfoldable pub handle_initialize : JsonRpcRequest → JsonRpcResponse
  handle_initialize req = with_result req.id initialized

  -- `handleToolsList`
  unfoldable pub handle_tools_list : JsonRpcRequest → JsonRpcResponse
  handle_tools_list req = with_result req.id (tool_list (map with_schema server.list_tools))

  -- `handleToolsCall`
  unfoldable pub handle_tools_call : JsonRpcRequest → JsonRpcResponse
  handle_tools_call req = elim (server.read_params req.params) [
    | none ↦ with_error req.id invalid_params
    | some params ↦
        if params.name == ""
        then with_error req.id invalid_params
        else answer_of req.id (server.call_tool params.name (or_no_arguments params.arguments))
  ]

  -- `HandleRequest`
  unfoldable pub handle_request : JsonRpcRequest → JsonRpcResponse
  handle_request req =
      if req.method == "initialize"
      then handle_initialize req
      else if req.method == "tools/list"
      then handle_tools_list req
      else if req.method == "tools/call"
      then handle_tools_call req
      else with_error req.id method_not_found
