-- ===== src/Tools/WasmExecutor/Sandbox.antt =====
-- What a module may touch when it runs (orchestrator/src/tool_registry/executor.rs).
use ai_assistant.Prelude.{
  ℕ, String, ◌≡◌, ◌⊎◌, refl, ap, inl, inr, Bool, true, false, List, Option, Io, ◌>>=◌, Result, All,
}
use ai_assistant.Errors.{ToolError}
use ai_assistant.Tools.Definition.{ToolDefinition, ToolPermissions}
use ai_assistant.Tools.WasmExecutor.{
  open_dir, read_only, Preopen, Confined, Wasmtime, Utf8, preopen, listed, or_fail, joined,
  read_result, alloc_args, run_export, captured, started, start_export, invoke, confined,
  execute_sync, run,
}

-- A directory that the permissions allow: the root of the sandbox, and for writing only if the tool
-- may write.
pub record IsAllowed (permissions : ToolPermissions) (sandbox_root : String) (p : Preopen)
    : Type 0 where
  pub rooted : p.host ≡ sandbox_root
  pub granted : (permissions.fs_read ≡ true) ⊎ (permissions.fs_write ≡ true)
  pub dirs : (p.dir_perms ≡ read_only) ⊎ (permissions.fs_write ≡ true)
  pub files : (p.file_perms ≡ read_only) ⊎ (permissions.fs_write ≡ true)

pub record IsPermitted {N : Type 0} (definition : ToolDefinition N) (max_memory_pages : ℕ)
    (sandbox_root : String) (box : Confined) : Type 0 where
  pub preopens : All (IsAllowed definition.permissions sandbox_root) box.preopens
  pub memories : box.memories ≡ max_memory_pages
  pub fuel : box.fuel ≡ 500_000_000
  pub stdout : box.stdout_capacity ≡ 4_194_304

preopen-IsAllowed :
    (read write network : Bool) (own : Option String) (root : String)
    → let permissions : ToolPermissions = record {
      fs_read = read;
      fs_write = write;
      network = network;
      sandbox_root = own;
    } in
      All (IsAllowed permissions root) (listed (preopen permissions root))
unfolding preopen
preopen-IsAllowed true true network own root =
    (record { rooted = refl; granted = inl refl; dirs = inr refl; files = inr refl }, tt)
preopen-IsAllowed true false network own root =
    (record { rooted = refl; granted = inl refl; dirs = inl refl; files = inl refl }, tt)
preopen-IsAllowed false true network own root =
    (record { rooted = refl; granted = inr refl; dirs = inr refl; files = inr refl }, tt)
preopen-IsAllowed false false network own root = tt

module _ {W M I N : Type 0} (wasm : Wasmtime W M I) (utf8 : Utf8)
    (show : List String → String) where
  confined-IsPermitted :
      (definition : ToolDefinition N) (args_json : String) (max_memory_pages : ℕ)
      (sandbox_root : String)
      → IsPermitted definition max_memory_pages sandbox_root
          (confined wasm utf8 definition args_json max_memory_pages sandbox_root)
  unfolding confined
  confined-IsPermitted definition args_json max_memory_pages sandbox_root = record {
    preopens =
        let p = definition.permissions in
        preopen-IsAllowed p.fs_read p.fs_write p.network p.sandbox_root sandbox_root;
    memories = refl;
    fuel = refl;
    stdout = refl;
  }

  module _ (instantiate : Confined → M → Io W (Result String I)) (definition : ToolDefinition N)
      (max_memory_pages : ℕ) (sandbox_root : String)
      (alike : (box : Confined) (m : M) (w : W)
        → IsPermitted definition max_memory_pages sandbox_root box
        → instantiate box m w ≡ wasm.instantiate box m w) where
    execute_sync-over :
        (m : M) (args_json : String) (w : W)
        → execute_sync
            (record wasm { instantiate = instantiate })
            utf8
            show
            m
            definition
            args_json
            max_memory_pages
            sandbox_root
            w
          ≡ execute_sync wasm utf8 show m definition args_json max_memory_pages sandbox_root w
    unfolding execute_sync confined invoke run_export read_result alloc_args captured started
        start_export
    execute_sync-over m args_json w =
        let made : (v : W) → instantiate _ m v ≡ wasm.instantiate _ m v = λ v.
          alike (confined wasm utf8 definition args_json max_memory_pages sandbox_root) m v
            (confined-IsPermitted definition args_json max_memory_pages sandbox_root) in
        ap
          (λ (act : Io W (Result String I)).
            or_fail (open_dir wasm utf8 (preopen definition.permissions sandbox_root))
              (λ _. or_fail (wasm.set_fuel 500_000_000) λ _. or_fail wasm.add_to_linker_sync λ _.
                or_fail act λ instance. do
                  runs ← wasm.has_run instance
                  invoke wasm utf8 show instance args_json runs)
              w)
          (λ i v. made v i)

    -- A module runs the same, in its result and its effects, over any two runtimes that make alike
    -- the instances that the definition permits: at most one directory, the sandbox's root, open only
    -- if the definition lets the tool read or write and writable only if it lets it write, with the
    -- given limit of memories and the fuel. No other instance is made.
    pub run-Permitted :
        (m : M) (args_json : String) (w : W)
        → run
            (record wasm { instantiate = instantiate })
            utf8
            show
            m
            definition
            args_json
            max_memory_pages
            sandbox_root
            w
          ≡ run wasm utf8 show m definition args_json max_memory_pages sandbox_root w
    unfolding run
    run-Permitted m args_json w =
        ap
          (λ (act : Io W (Result ToolError String)).
            let (r, v) = wasm.under_timeout definition.timeout_secs act w in
            (joined definition.timeout_secs r, v))
          (λ i v. execute_sync-over m args_json v i)
