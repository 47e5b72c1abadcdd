-- ===== src/AgentLoop/Prompt.antt =====
-- `build_system_prompt` of orchestrator/src/agent_loop/mod.rs.
use ai_assistant.Prelude.{String, ◌<>◌, ◌≡◌, ap, List, [], ◌∷◌, if◌then◌else◌}
use ai_assistant.AccessControl.{AccessPolicy, allows_tool}
use ai_assistant.Tools.Definition.{ArgDef, ToolDefinition}

-- The fixed part of the prompt.
abbrev preamble : String
preamble =
    "You are a helpful AI assistant. You may invoke tools to help the user.\n\nTo call a tool, emit EXACTLY this format (a fenced code block with language `tool_call`):\n\n```tool_call\n{\n  \"tool\": \"<tool_name>\",\n  \"call_id\": \"<unique_id>\",\n  \"args\": { ... }\n}\n```\n\nAfter you emit a tool_call block, you will receive a `tool_result` block with the output.\nUse the result to continue your reasoning before giving your final answer.\n\n"

module _ {N : Type 0} where
  -- The tools that the policy permits.
  unfoldable pub visible : AccessPolicy → List (ToolDefinition N) → List (ToolDefinition N)
  visible policy [] = []
  visible policy (t ∷ ts) =
      let rest = visible policy ts in if allows_tool policy t.name then t ∷ rest else rest

  arg_line : ArgDef N → String
  arg_line a =
      "- `"
      <> a.name
      <> "` ("
      <> a.ty
      <> "): "
      <> a.description
      <> " ["
      <> (if a.required then "required" else "optional")
      <> "]\n"

  arg_lines : List (ArgDef N) → String
  unfolding arg_line
  arg_lines [] = ""
  arg_lines (a ∷ rest) = arg_line a <> arg_lines rest

  tool_sections : List (ToolDefinition N) → String
  unfolding arg_lines
  tool_sections [] = ""
  tool_sections (t ∷ ts) =
      "### `"
      <> t.name
      <> "`\n"
      <> t.description
      <> "\n\n**Arguments:**\n"
      <> arg_lines t.args
      <> "\n"
      <> tool_sections ts

  tools_part : List (ToolDefinition N) → String
  unfolding tool_sections
  tools_part [] = "No tools are currently available.\n"
  tools_part (t ∷ ts) = "## Available Tools\n\n" <> tool_sections (t ∷ ts)

  -- The prompt for the schemas that the registry lists.
  unfoldable pub system_prompt : AccessPolicy → List (ToolDefinition N) → String
  unfolding visible tools_part
  system_prompt policy schemas = preamble <> tools_part (visible policy schemas)

  -- The prompt is a function of the permitted tools.
  pub system_prompt-visible :
      (policy : AccessPolicy) (xs ys : List (ToolDefinition N))
      → visible policy xs ≡ visible policy ys
      → system_prompt policy xs ≡ system_prompt policy ys
  unfolding system_prompt
  system_prompt-visible policy xs ys h = ap (λ v. preamble <> tools_part v) h
