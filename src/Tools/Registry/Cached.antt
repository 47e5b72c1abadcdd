-- ===== src/Tools/Registry/Cached.antt =====
-- When the registry holds a tool's compiled module (orchestrator/src/tool_registry/mod.rs).
use ai_assistant.Prelude.{
  String, ◌≡◌, refl, ap, ◌∙◌, Result-cases, inl, inr, Option, none, some, Io, Result, ok, err,
  lookup, lookup-insert, eq_refl,
}
use ai_assistant.Errors.{ToolError}
use ai_assistant.Json.{Value, Serde}
use ai_assistant.Tools.Definition.{ToolBackend, ToolDefinition, wasm, native}
use ai_assistant.Tools.Definition.Validate.{validate_args}
use ai_assistant.Tools.NativeExecutor.{Os}
use ai_assistant.Tools.Registry.{
  ToolEntry, ToolRegistry, Compiler, cache, compiled, loaded, compile_file, ensure_module,
  run_compiled, dispatch, validated, execute_entry, execute, cached_or,
}

module _ {W N M P : Type 0} (serde : Serde N) (os : Os W N P) (compiler : Compiler W N M) where
  -- The module of the tool is in the registry.
  pub record IsCached (name : String) (registry : ToolRegistry N M) : Type 0 where
    pub entry : ToolEntry N M
    pub m : M
    pub at : lookup name registry.entries ≡ some entry
    pub is_compiled : entry.wasm_module ≡ some m

  compiled-IsCached :
      (name : String) (e : ToolEntry N M) (r : Result String M) (registry : ToolRegistry N M)
      (m : M)
      → (compiled serde compiler name e r registry).0 ≡ ok m
      → IsCached name (compiled serde compiler name e r registry).1
  unfolding compiled cache
  compiled-IsCached name e (err x) registry m h = cc
  compiled-IsCached name e (ok m') registry m h = record {
    entry = record e { wasm_module = some m' };
    m = m';
    at = simp (lookup-insert, eq_refl);
    is_compiled = refl;
  }

  compile_file-IsCached :
      (name : String) (e : ToolEntry N M) (path : Option String) (registry : ToolRegistry N M)
      (w : W) (m : M)
      → (compile_file serde compiler name e path registry w).0.0 ≡ ok m
      → IsCached name (compile_file serde compiler name e path registry w).0.1
  unfolding compile_file loaded
  compile_file-IsCached name e none registry w m h = cc
  compile_file-IsCached name e (some path) registry w m h =
      elim (Result-cases (compiler.read path w).0) [
        | inl (bytes, read) ↦
            let h' = rw read at h in
            rw read (compiled-IsCached name e (compiler.new_module bytes) registry m h')
        | inr (x, failed) ↦ let h' = rw failed at h in absurd (cc h')
      ]

  cached_or-IsCached :
      (name : String) (e : ToolEntry N M) (fresh : Io W (Result ToolError M × ToolRegistry N M))
      (registry : ToolRegistry N M) (o : Option M) (w : W) (m : M)
      → lookup name registry.entries ≡ some e
      → e.wasm_module ≡ o
      → ((fresh w).0.0 ≡ ok m → IsCached name (fresh w).0.1)
      → (cached_or serde compiler fresh registry o w).0.0 ≡ ok m
      → IsCached name (cached_or serde compiler fresh registry o w).0.1
  cached_or-IsCached name e fresh registry none w m found is later h = later h
  cached_or-IsCached name e fresh registry (some m') w m found is later h = record {
    entry = e;
    m = m';
    at = found;
    is_compiled = is;
  }

  ensure_module-IsCached :
      (name : String) (path : Option String) (o : Option (ToolEntry N M))
      (registry : ToolRegistry N M) (w : W) (m : M)
      → lookup name registry.entries ≡ o
      → (ensure_module serde compiler name path o registry w).0.0 ≡ ok m
      → IsCached name (ensure_module serde compiler name path o registry w).0.1
  unfolding ensure_module
  ensure_module-IsCached name path none registry w m found h = cc
  ensure_module-IsCached name path (some e) registry w m found h =
      cached_or-IsCached name e _ registry e.wasm_module w m found refl
        (compile_file-IsCached name e path registry w m) h

  -- A result of a module that ran: there was a module.
  run_compiled-IsCached :
      (name : String) (def : ToolDefinition N) (args : Value N) (r : Result ToolError M)
      (registry : ToolRegistry N M) (w : W) (out : String)
      → ((m : M) → r ≡ ok m → IsCached name registry)
      → (run_compiled serde compiler def args (r, registry) w).0.0 ≡ ok out
      → IsCached name (run_compiled serde compiler def args (r, registry) w).0.1
  unfolding run_compiled
  run_compiled-IsCached name def args (err x) registry w out cached h = cc
  run_compiled-IsCached name def args (ok m) registry w out cached h = cached m refl

  dispatch-IsCached :
      (name : String) (def : ToolDefinition N) (args : Value N) (b : ToolBackend)
      (registry : ToolRegistry N M) (w : W) (out : String)
      → b ≡ wasm
      → (dispatch serde os compiler name def args b registry w).0.0 ≡ ok out
      → IsCached name (dispatch serde os compiler name def args b registry w).0.1
  unfolding dispatch
  dispatch-IsCached name def args native registry w out e h = cc
  dispatch-IsCached name def args wasm registry w out e h =
      run_compiled-IsCached name def args _ _ _ out
        (λ m. ensure_module-IsCached name def.wasm (lookup name registry.entries) registry w m refl)
        h

  validated-IsCached :
      (name : String) (def : ToolDefinition N) (args : Result ToolError (Value N))
      (registry : ToolRegistry N M) (w : W) (out : String)
      → def.backend ≡ wasm
      → (validated serde os compiler name def args registry w).0.0 ≡ ok out
      → IsCached name (validated serde os compiler name def args registry w).0.1
  unfolding validated
  validated-IsCached name def (err x) registry w out b h = cc
  validated-IsCached name def (ok args) registry w out b h =
      dispatch-IsCached name def args def.backend registry w out b h

  execute_entry-IsCached :
      (name args_json : String) (o : Option (ToolEntry N M)) (e : ToolEntry N M)
      (registry : ToolRegistry N M) (w : W) (out : String)
      → o ≡ some e
      → e.definition.backend ≡ wasm
      → (execute_entry serde os compiler name args_json o registry w).0.0 ≡ ok out
      → IsCached name (execute_entry serde os compiler name args_json o registry w).0.1
  unfolding execute_entry
  execute_entry-IsCached name args_json none e registry w out is b h = cc
  execute_entry-IsCached name args_json (some d) e registry w out is b h =
      let same : d ≡ e = cc in
      let b' = ap (λ x. x.definition.backend) same ∙ b in
      validated-IsCached name d.definition (validate_args serde d.definition args_json) registry w
        out b' h

  -- After a successful call of a Wasm tool its compiled module is in the registry.
  pub execute-IsCached :
      (tool_name args_json : String) (e : ToolEntry N M) (registry : ToolRegistry N M) (w : W)
      (output : String)
      → lookup tool_name registry.entries ≡ some e
      → e.definition.backend ≡ wasm
      → (execute serde os compiler tool_name args_json registry w).0.0 ≡ ok output
      → IsCached tool_name (execute serde os compiler tool_name args_json registry w).0.1
  unfolding execute
  execute-IsCached tool_name args_json e registry w output found b h =
      execute_entry-IsCached tool_name args_json (lookup tool_name registry.entries) e registry w
        output found b h
