-- ===== src/Tools/Definition.antt =====
-- orchestrator/src/tool_registry/definition.rs: the data of a tool definition. A path is its text.
pub mod Validate
pub mod Parse
use ai_assistant.Prelude.{ℕ, String, Bool, List, Option}
use ai_assistant.Json.{Value}

pub data ToolBackend : Type 0 where
  wasm native : ToolBackend

pub record ToolPermissions : Type 0 where
  pub fs_read : Bool
  pub fs_write : Bool
  pub network : Bool
  pub sandbox_root : Option String

pub record ArgDef (N : Type 0) : Type 0 where
  pub name : String
  pub ty : String
  pub required : Bool
  pub description : String
  pub default : Option (Value N)
  pub positional : Bool
  pub is_stdin : Bool

pub record ToolDefinition (N : Type 0) : Type 0 where
  pub name : String
  pub version : String
  pub description : String
  pub backend : ToolBackend
  pub wasm : Option String
  pub binary : Option String
  pub command_args : List String
  pub timeout_secs : ℕ
  pub permissions : ToolPermissions
  pub args : List (ArgDef N)
  pub docs : String
