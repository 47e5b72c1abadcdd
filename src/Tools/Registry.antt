-- ===== src/Tools/Registry.antt =====
-- orchestrator/src/tool_registry/mod.rs: the registry of tools, and the dispatch of a call to one of
-- the executors.
pub mod Rule
pub mod Laws
pub mod Load
pub mod Reach
pub mod Cached
pub mod Cache
pub mod Sandbox
use ai_assistant.Prelude.{
  ℕ, String, ◌<>◌, List, [], ◌∷◌, map, Option, none, some, Io, pure, ◌>>=◌, Result, ok, err, lookup,
  insert,
}
use ai_assistant.Errors.{ToolError, not_found, compile}
use ai_assistant.Json.{Value, Serde}
use ai_assistant.Tools.Definition.{ToolBackend, ToolDefinition, wasm, native}
use ai_assistant.Tools.Definition.Validate.{validate_args}
use ai_assistant.Tools.NativeExecutor.{Os, run}

-- `M` is a compiled module.
pub record ToolEntry (N M : Type 0) : Type 0 where
  pub definition : ToolDefinition N
  pub wasm_module : Option M

abbrev pub Entries : Type 0 → Type 0 → Type 0
Entries N M = List (String × ToolEntry N M)

-- The engine is that of `Compiler`.
pub record ToolRegistry (N M : Type 0) : Type 0 where
  pub entries : Entries N M
  pub max_memory_pages : ℕ
  pub sandbox_root : String
  pub allowed_binaries : List String
  pub max_output_bytes : ℕ

-- The file system, wasmtime, and the executor of compiled modules on it. An error is its text.
pub record Compiler (W N M : Type 0) : Type 0 where
  pub read : String → Io W (Result String (List ℕ))
  pub new_module : List ℕ → Result String M
  pub run_module : M → ToolDefinition N → String → ℕ → String → Io W (Result ToolError String)

abbrev pub root_or : String → Option String → String
root_or global none = global
root_or global (some own) = own

module _ {N M : Type 0} where
  unfoldable pub list_schemas : ToolRegistry N M → List (ToolDefinition N)
  list_schemas registry = map (λ e. e.1.definition) registry.entries

  abbrev definition_of : Option (ToolEntry N M) → Option (ToolDefinition N)
  definition_of none = none
  definition_of (some e) = some e.definition

  unfoldable pub get_definition : String → ToolRegistry N M → Option (ToolDefinition N)
  get_definition name registry = definition_of (lookup name registry.entries)

  -- The tool's own sandbox root wins over the global one.
  unfoldable pub resolve_root : ToolDefinition N → ToolRegistry N M → String
  resolve_root definition registry =
      root_or registry.sandbox_root definition.permissions.sandbox_root

module _ {W N M : Type 0} (serde : Serde N) (compiler : Compiler W N M) where
  open compiler use {read, new_module, run_module}

  -- `entry.module = Some(module)`
  unfoldable pub cache : String → ToolEntry N M → M → ToolRegistry N M → ToolRegistry N M
  cache tool_name entry m registry = record registry {
    entries = insert tool_name (record entry { wasm_module = some m }) registry.entries;
  }

  unfoldable pub compiled :
      String
      → ToolEntry N M
      → Result String M
      → ToolRegistry N M
      → Result ToolError M × ToolRegistry N M
  compiled tool_name entry (err e) registry = (err (compile e), registry)
  compiled tool_name entry (ok m) registry = (ok m, cache tool_name entry m registry)

  unfoldable pub loaded :
      String
      → ToolEntry N M
      → Result String (List ℕ)
      → ToolRegistry N M
      → Result ToolError M × ToolRegistry N M
  loaded tool_name entry (err e) registry = (err (compile e), registry)
  loaded tool_name entry (ok wasm_bytes) registry =
      compiled tool_name entry (new_module wasm_bytes) registry

  unfoldable pub compile_file :
      String
      → ToolEntry N M
      → Option String
      → ToolRegistry N M
      → Io W (Result ToolError M × ToolRegistry N M)
  compile_file tool_name entry none registry =
      pure (err (compile ("tool `" <> tool_name <> "` has no wasm path")), registry)
  compile_file tool_name entry (some wasm_path) registry = do
    wasm_bytes ← read wasm_path
    pure (loaded tool_name entry wasm_bytes registry)

  abbrev cached_or :
      {A : Type 0} → Io W (Result ToolError M × A) → A → Option M → Io W (Result ToolError M × A)
  cached_or fresh registry none = fresh
  cached_or fresh registry (some m) = pure (ok m, registry)

  -- The module in the cache, or a fresh one that is put there.
  unfoldable pub ensure_module :
      String
      → Option String
      → Option (ToolEntry N M)
      → ToolRegistry N M
      → Io W (Result ToolError M × ToolRegistry N M)
  ensure_module tool_name wasm_path none registry = pure (err (not_found tool_name), registry)
  ensure_module tool_name wasm_path (some entry) registry =
      cached_or (compile_file tool_name entry wasm_path registry) registry entry.wasm_module

  unfoldable pub run_compiled :
      ToolDefinition N
      → Value N
      → Result ToolError M × ToolRegistry N M
      → Io W (Result ToolError String × ToolRegistry N M)
  run_compiled definition args (err e, registry) = pure (err e, registry)
  run_compiled definition args (ok m, registry) = do
    r ←
        run_module m definition (serde.to_string args) registry.max_memory_pages
          (resolve_root definition registry)
    pure (r, registry)

module _ {W N M P : Type 0} (serde : Serde N) (os : Os W N P) (compiler : Compiler W N M) where
  unfoldable pub dispatch :
      String
      → ToolDefinition N
      → Value N
      → ToolBackend
      → ToolRegistry N M
      → Io W (Result ToolError String × ToolRegistry N M)
  dispatch tool_name definition args native registry = do
    r ←
        run serde os definition args registry.allowed_binaries (resolve_root definition registry)
          registry.max_output_bytes
    pure (r, registry)
  dispatch tool_name definition args wasm registry = do
    m ←
        ensure_module serde compiler tool_name definition.wasm (lookup tool_name registry.entries)
          registry
    run_compiled serde compiler definition args m

  -- What follows the validation of the arguments.
  unfoldable pub validated :
      String
      → ToolDefinition N
      → Result ToolError (Value N)
      → ToolRegistry N M
      → Io W (Result ToolError String × ToolRegistry N M)
  validated tool_name definition (err e) registry = pure (err e, registry)
  validated tool_name definition (ok args) registry =
      dispatch tool_name definition args definition.backend registry

  unfoldable pub execute_entry :
      String
      → String
      → Option (ToolEntry N M)
      → ToolRegistry N M
      → Io W (Result ToolError String × ToolRegistry N M)
  execute_entry tool_name args_json none registry = pure (err (not_found tool_name), registry)
  execute_entry tool_name args_json (some entry) registry =
      validated tool_name entry.definition (validate_args serde entry.definition args_json) registry

  unfoldable pub execute :
      String → String → ToolRegistry N M → Io W (Result ToolError String × ToolRegistry N M)
  execute tool_name args_json registry =
      execute_entry tool_name args_json (lookup tool_name registry.entries) registry
