-- ===== src/AgentLoop/Protocol.antt =====
-- orchestrator/src/agent_loop/protocol.rs: tool calls in the engine's replies, and their results.
-- The derived deserialiser is an interface.
use ai_assistant.Prelude.{String, ◌<>◌, Option, none, some}
use ai_assistant.AgentLoop.Fence.{captures}
use ai_assistant.Json.{Value, object, string, end, field, Serde}

pub record ToolCall (N : Type 0) : Type 0 where
  pub tool : String
  pub call_id : String
  pub args : Value N

-- `from_str` is `serde_json::from_str` at `ToolCall`, with the error dropped.
pub record ToolCallSyntax (N : Type 0) : Type 0 where
  pub from_str : String → Option (ToolCall N)

module _ {N : Type 0} where
  unfoldable pub args_json : Serde N → ToolCall N → String
  args_json serde call = serde.to_string call.args

  abbrev pub parsed : ToolCallSyntax N → Option String → Option (ToolCall N)
  parsed stx none = none
  parsed stx (some json_str) = stx.from_str json_str

  unfoldable pub extract_tool_call : ToolCallSyntax N → String → Option (ToolCall N)
  extract_tool_call stx text = parsed stx (captures text)

  -- The keys stand in the order of the map that `json!` builds.
  unfoldable pub format_tool_result : Serde N → String → String → String → String
  format_tool_result serde call_id status output =
      let payload : Value N = object (
        field "call_id" (string call_id)
          (field "output" (string output) (field "status" (string status) end))) in
      "```tool_result\n" <> serde.to_string_pretty payload <> "\n```"
