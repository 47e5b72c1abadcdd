-- ===== src/Tools/Registry/Rule.antt =====
-- An induction rule for `execute` of orchestrator/src/tool_registry/mod.rs: all that a call can do to
-- the registry is to put a module into the entry of the tool.
use ai_assistant.Prelude.{
  String, ◌≡◌, refl, inl, inr, sym, subst, Option, none, some, Io, Result, ok, err, lookup,
  Result-cases,
}
use ai_assistant.Errors.{ToolError}
use ai_assistant.Json.{Value, Serde}
use ai_assistant.Tools.Definition.{ToolBackend, ToolDefinition, wasm, native}
use ai_assistant.Tools.Definition.Validate.{validate_args}
use ai_assistant.Tools.NativeExecutor.{Os}
use ai_assistant.Tools.Registry.{
  ToolEntry, ToolRegistry, Compiler, cache, compiled, loaded, compile_file, ensure_module,
  run_compiled, dispatch, validated, execute_entry, execute, cached_or,
}

module _ {W N M P : Type 0} (serde : Serde N) (os : Os W N P) (compiler : Compiler W N M)
    (name : String) (registry : ToolRegistry N M) (Holds : ToolRegistry N M → Type 0)
    (start : Holds registry)
    (caches : (e : ToolEntry N M) (m : M)
      → lookup name registry.entries ≡ some e
      → Holds (cache serde compiler name e m registry)) where
  compiled-Holds :
      (e : ToolEntry N M) (r : Result String M)
      → lookup name registry.entries ≡ some e
      → Holds (compiled serde compiler name e r registry).1
  unfolding compiled
  compiled-Holds e (err x) found = start
  compiled-Holds e (ok m) found = caches e m found

  compile_file-Holds :
      (e : ToolEntry N M) (path : Option String) (w : W)
      → lookup name registry.entries ≡ some e
      → Holds (compile_file serde compiler name e path registry w).0.1
  unfolding compile_file loaded
  compile_file-Holds e none w found = start
  compile_file-Holds e (some path) w found = elim (Result-cases (compiler.read path w).0) [
    | inl (bytes, read) ↦ rw read (compiled-Holds e (compiler.new_module bytes) found)
    | inr (x, failed) ↦ rw failed start
  ]

  cached_or-Holds :
      (fresh : Io W (Result ToolError M × ToolRegistry N M)) (o : Option M) (w : W)
      → Holds (fresh w).0.1
      → Holds (cached_or serde compiler fresh registry o w).0.1
  cached_or-Holds fresh none w h = h
  cached_or-Holds fresh (some m) w h = start

  ensure_module-Holds :
      (path : Option String) (o : Option (ToolEntry N M)) (w : W)
      → lookup name registry.entries ≡ o
      → Holds (ensure_module serde compiler name path o registry w).0.1
  unfolding ensure_module
  ensure_module-Holds path none w found = start
  ensure_module-Holds path (some e) w found =
      cached_or-Holds _ e.wasm_module w (compile_file-Holds e path w found)

  run_compiled-registry :
      (def : ToolDefinition N) (args : Value N) (r : Result ToolError M) (reg : ToolRegistry N M)
      (w : W)
      → (run_compiled serde compiler def args (r, reg) w).0.1 ≡ reg
  unfolding run_compiled
  run_compiled-registry def args (err x) reg w = refl
  run_compiled-registry def args (ok m) reg w = refl

  dispatch-Holds :
      (def : ToolDefinition N) (args : Value N) (b : ToolBackend) (w : W)
      → Holds (dispatch serde os compiler name def args b registry w).0.1
  unfolding dispatch
  dispatch-Holds def args native w = start
  dispatch-Holds def args wasm w =
      let ((r, reg), w') =
        ensure_module serde compiler name def.wasm (lookup name registry.entries) registry w in
      subst Holds (sym (run_compiled-registry def args r reg w'))
        (ensure_module-Holds def.wasm (lookup name registry.entries) w refl)

  validated-Holds :
      (def : ToolDefinition N) (args : Result ToolError (Value N)) (w : W)
      → Holds (validated serde os compiler name def args registry w).0.1
  unfolding validated
  validated-Holds def (err x) w = start
  validated-Holds def (ok args) w = dispatch-Holds def args def.backend w

  execute_entry-Holds :
      (args_json : String) (o : Option (ToolEntry N M)) (w : W)
      → Holds (execute_entry serde os compiler name args_json o registry w).0.1
  unfolding execute_entry
  execute_entry-Holds args_json none w = start
  execute_entry-Holds args_json (some e) w =
      validated-Holds e.definition (validate_args serde e.definition args_json) w

  -- What holds of a registry, and of it with a module in the entry of the tool, holds after a call.
  pub execute-Holds :
      (args_json : String) (w : W) → Holds (execute serde os compiler name args_json registry w).0.1
  unfolding execute
  execute-Holds args_json w = execute_entry-Holds args_json (lookup name registry.entries) w
