-- ===== src/AgentLoop/WithRegistry.antt =====
-- The turn of orchestrator/src/agent_loop/mod.rs over the registry of
-- orchestrator/src/tool_registry/mod.rs. The registry's entries are part of the world; its settings
-- are fixed when it is loaded.
use mathlib.Core.Path.{fun_ext}
use ai_assistant.Prelude.{String, ◌≡◌, refl, ap, List, Io, Result}
use ai_assistant.Errors.{ToolError}
use ai_assistant.Config.{AgentSettings}
use ai_assistant.AccessControl.{AccessPolicy}
use ai_assistant.Json.{Serde}
use ai_assistant.Session.{Session}
use ai_assistant.Tools.Definition.{ToolDefinition}
use ai_assistant.Tools.NativeExecutor.{Command, Os}
use ai_assistant.Tools.NativeExecutor.Sandbox.{IsSandboxed}
use ai_assistant.Tools.NativeExecutor.Sandbox
use ai_assistant.Tools.Registry.{Entries, ToolRegistry, Compiler, list_schemas, execute}
use ai_assistant.Tools.Registry.Sandbox.{execute-Sandboxed}
use ai_assistant.AgentLoop.{Deps, Memory, AgentRequest, run_turn}
use ai_assistant.AgentLoop.Policy.{over, run_turn-over}

module _ {N M : Type 0} (registry : ToolRegistry N M) where
  abbrev holding : Entries N M → ToolRegistry N M
  holding entries = record registry { entries = entries }

  unfoldable pub list_tools : {W : Type 0} → Io (W × Entries N M) (List (ToolDefinition N))
  list_tools (w, entries) = (list_schemas (holding entries), (w, entries))

module _ {W N M P : Type 0} (serde : Serde N) (compiler : Compiler W N M)
    (registry : ToolRegistry N M) where
  unfoldable pub execute_tool :
      Os W N P → String → String → Io (W × Entries N M) (Result ToolError String)
  execute_tool os tool_name args_json (w, entries) =
      let ((r, registry'), w') =
        execute serde os compiler tool_name args_json (holding registry entries) w in
      (r, (w', registry'.entries))

  -- The surroundings of a turn, with the registry's operations.
  abbrev pub with_registry : Os W N P → Deps (W × Entries N M) N → Deps (W × Entries N M) N
  with_registry os deps = over deps (execute_tool os) (list_tools registry)

  module _ (os : Os W N P) (spawn_child : Command → Io W (Result String P))
      (same_child : (sandbox_root : String) (c : Command)
        → IsSandboxed registry.allowed_binaries sandbox_root c
        → os.spawn_child c ≡ spawn_child c) where
    execute_tool-over :
        (tool_name args_json : String)
        → execute_tool os tool_name args_json
          ≡ execute_tool (Sandbox.over os spawn_child) tool_name args_json
    unfolding execute_tool
    execute_tool-over tool_name args_json = fun_ext λ s.
        ap (λ r. (r.0.0, (r.1, r.0.1.entries)))
          (execute-Sandboxed serde os compiler spawn_child (holding registry s.1) same_child
            tool_name args_json s.0)

    -- A turn over the registry is the same, in its result, its session and its effects, over any two
    -- systems that start alike the commands whose program the registry's list allows and whose
    -- environment is scrubbed: no reply of the engine makes a turn start another one.
    pub run_turn-Sandboxed :
        (deps : Deps (W × Entries N M) N) (settings : AgentSettings) (auth_token : String)
        (policy : AccessPolicy) (memory : Memory (W × Entries N M)) (request : AgentRequest)
        (session : Session) (w : W × Entries N M)
        → run_turn (with_registry os deps) settings auth_token policy memory request session w
          ≡ run_turn
              (with_registry (Sandbox.over os spawn_child) deps)
              settings
              auth_token
              policy
              memory
              request
              session
              w
    run_turn-Sandboxed deps settings auth_token policy memory request session w =
        run_turn-over (with_registry os deps) settings auth_token policy
          (execute_tool (Sandbox.over os spawn_child)) (list_tools registry)
          (λ tool_name args_json _. execute_tool-over tool_name args_json) (λ w. refl) (λ w. refl)
          memory request session w
