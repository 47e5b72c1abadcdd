-- ===== src/Tools/Registry/Sandbox.antt =====
-- Which processes a call of a tool starts (orchestrator/src/tool_registry/mod.rs).
use ai_assistant.Prelude.{String, ◌≡◌, refl, ap, Option, none, some, Io, Result, ok, err, lookup}
use ai_assistant.Errors.{ToolError}
use ai_assistant.Json.{Value, Serde}
use ai_assistant.Tools.Definition.{ToolBackend, ToolDefinition, wasm, native}
use ai_assistant.Tools.Definition.Validate.{validate_args}
use ai_assistant.Tools.NativeExecutor.{Command, Os}
use ai_assistant.Tools.NativeExecutor.Sandbox.{IsSandboxed, over, run-over}
use ai_assistant.Tools.Registry.{
  ToolEntry, ToolRegistry, Compiler, resolve_root, dispatch, validated, execute_entry, execute,
}

module _ {W N M P : Type 0} (serde : Serde N) (os : Os W N P) (compiler : Compiler W N M)
    (spawn_child : Command → Io W (Result String P)) (registry : ToolRegistry N M)
    (same_child : (sandbox_root : String) (c : Command)
      → IsSandboxed registry.allowed_binaries sandbox_root c
      → os.spawn_child c ≡ spawn_child c) where
  abbrev other : Os W N P
  other = over os spawn_child

  dispatch-over :
      (name : String) (def : ToolDefinition N) (args : Value N) (b : ToolBackend) (w : W)
      → dispatch serde os compiler name def args b registry w
        ≡ dispatch serde other compiler name def args b registry w
  unfolding dispatch
  dispatch-over name def args native w =
      ap (λ r. ((r.0, registry), r.1))
        (run-over serde os spawn_child registry.allowed_binaries (resolve_root def registry)
          (same_child (resolve_root def registry)) def args registry.max_output_bytes w)
  dispatch-over name def args wasm w = refl

  validated-over :
      (name : String) (def : ToolDefinition N) (args : Result ToolError (Value N)) (w : W)
      → validated serde os compiler name def args registry w
        ≡ validated serde other compiler name def args registry w
  unfolding validated
  validated-over name def (err x) w = refl
  validated-over name def (ok args) w = dispatch-over name def args def.backend w

  execute_entry-over :
      (name args_json : String) (o : Option (ToolEntry N M)) (w : W)
      → execute_entry serde os compiler name args_json o registry w
        ≡ execute_entry serde other compiler name args_json o registry w
  unfolding execute_entry
  execute_entry-over name args_json none w = refl
  execute_entry-over name args_json (some e) w =
      validated-over name e.definition (validate_args serde e.definition args_json) w

  -- A call is the same over any two systems that start alike what the registry's list allows.
  pub execute-Sandboxed :
      (tool_name args_json : String) (w : W)
      → execute serde os compiler tool_name args_json registry w
        ≡ execute serde other compiler tool_name args_json registry w
  unfolding execute
  execute-Sandboxed tool_name args_json w =
      execute_entry-over tool_name args_json (lookup tool_name registry.entries) w
