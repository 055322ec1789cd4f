-- ===== src/Mcp/Tests.antt =====
-- A request to the server, and the theorem at it.
use openbotstack_core.Base.{none, some, [], ◌∷◌}
use openbotstack_core.Value.{int64, null}
use openbotstack_core.Mcp.{JsonRpcRequest, Server, call_failed, handle_request}
use openbotstack_core.Mcp.Dispatch.{Answers, error_code, handle_request-Answers}

abbrev server : Server
server = record {
  list_tools = record { name = "search"; description = ""; input_schema = none } ∷ [];
  call_tool = λ name args. call_failed "no such tool";
  read_params = λ _. some record { name = "search"; arguments = none };
}

abbrev unnamed : JsonRpcRequest
unnamed = record { id = int64 8; method = "tools/call"; params = null }

handle_request-Answers_example :
    Answers unnamed (error_code server unnamed) (handle_request server unnamed)
handle_request-Answers_example = handle_request-Answers server unnamed
