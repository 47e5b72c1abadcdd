-- ===== src/Tools/Registry/Cache.antt =====
-- Calls of a tool whose module is compiled (orchestrator/src/tool_registry/mod.rs).
use ai_assistant.Prelude.{
  ℕ, String, ◌≡◌, refl, List, Option, none, some, Io, Result, ok, err, lookup,
}
use ai_assistant.Errors.{ToolError}
use ai_assistant.Json.{Value, Serde}
use ai_assistant.Tools.Definition.{ToolBackend, ToolDefinition, wasm, native}
use ai_assistant.Tools.Definition.Validate.{validate_args}
use ai_assistant.Tools.NativeExecutor.{Os}
use ai_assistant.Tools.Registry.{
  ToolEntry, ToolRegistry, Compiler, ensure_module, run_compiled, dispatch, validated,
  execute_entry, execute,
}

-- The same executor over another file system and another compiler.
abbrev pub over :
    {W N M : Type 0}
    → Compiler W N M
    → (String → Io W (Result String (List ℕ)))
    → (List ℕ → Result String M)
    → Compiler W N M
over compiler read new_module = record compiler { read = read; new_module = new_module }

module _ {W N M P : Type 0} (serde : Serde N) (os : Os W N P) (compiler : Compiler W N M)
    (read : String → Io W (Result String (List ℕ))) (new_module : List ℕ → Result String M) where
  abbrev other : Compiler W N M
  other = over compiler read new_module

  module _ (e : ToolEntry N M) (m : M) (is_compiled : e.wasm_module ≡ some m) where
    ensure_module-cached :
        (c : Compiler W N M) (name : String) (path : Option String) (o : Option (ToolEntry N M))
        (registry : ToolRegistry N M) (w : W)
        → o ≡ some e
        → ensure_module serde c name path o registry w ≡ ((ok m, registry), w)
    unfolding ensure_module
    ensure_module-cached c name path o registry w found = rw (found, is_compiled)

    dispatch-over :
        (name : String) (def : ToolDefinition N) (args : Value N) (b : ToolBackend)
        (registry : ToolRegistry N M) (w : W)
        → lookup name registry.entries ≡ some e
        → dispatch serde os compiler name def args b registry w
          ≡ dispatch serde os other name def args b registry w
    unfolding dispatch run_compiled
    dispatch-over name def args native registry w found = refl
    dispatch-over name def args wasm registry w found = rw (
      ensure_module-cached compiler name def.wasm _ registry w found,
      ensure_module-cached other name def.wasm _ registry w found,
    )

    validated-over :
        (name : String) (def : ToolDefinition N) (args : Result ToolError (Value N))
        (registry : ToolRegistry N M) (w : W)
        → lookup name registry.entries ≡ some e
        → validated serde os compiler name def args registry w
          ≡ validated serde os other name def args registry w
    unfolding validated
    validated-over name def (err x) registry w found = refl
    validated-over name def (ok args) registry w found =
        dispatch-over name def args def.backend registry w found

    execute_entry-over :
        (name args_json : String) (o : Option (ToolEntry N M)) (registry : ToolRegistry N M) (w : W)
        → lookup name registry.entries ≡ some e
        → execute_entry serde os compiler name args_json o registry w
          ≡ execute_entry serde os other name args_json o registry w
    unfolding execute_entry
    execute_entry-over name args_json none registry w found = refl
    execute_entry-over name args_json (some d) registry w found =
        validated-over name d.definition (validate_args serde d.definition args_json) registry w
          found

    -- A call of a tool whose module is compiled neither reads a file nor compiles: it is the same,
    -- in its result, its registry and its effects, over any file system and compiler.
    pub execute-over :
        (tool_name args_json : String) (registry : ToolRegistry N M) (w : W)
        → lookup tool_name registry.entries ≡ some e
        → execute serde os compiler tool_name args_json registry w
          ≡ execute serde os other tool_name args_json registry w
    unfolding execute
    execute-over tool_name args_json registry w found =
        execute_entry-over tool_name args_json (lookup tool_name registry.entries) registry w found
