-- ===== src/Examples/Served.antt =====
-- The theorem of `AgentLoop.WithRegistry` on the registry of `Tools`.
use ai_assistant.Prelude.{ℕ, ◌≡◌, [], none, Io, ok}
use ai_assistant.AgentLoop.{Deps, Memory, message, run_turn}
use ai_assistant.AgentLoop.WithRegistry.{with_registry, run_turn-Sandboxed}
use ai_assistant.Tools.NativeExecutor.Sandbox
use ai_assistant.Tools.Registry.{Entries}
use ai_assistant.Samples.{deps, serde, tokens, settings, files_only, session}
use ai_assistant.Examples.Tools.{os, spawn_child, same_program, compiler, registry}

-- An action that does not look at the registry.
abbrev lift : {A : Type 0} → Io ℕ A → Io (ℕ × Entries ℕ ℕ) A
lift f (w, entries) = let (a, w') = f w in (a, (w', entries))

abbrev served : Deps (ℕ × Entries ℕ ℕ) ℕ
served =
    let d = deps (ok (tokens 10)) in
    let inner = d.cognition.inner in
    record {
      clock = record { now = lift d.clock.now };
      cognition = record {
        inner = record {
          complete = λ req. lift (inner.complete req);
          count_tokens = λ req. lift (inner.count_tokens req);
          parse_output = λ req. lift (inner.parse_output req);
          check = λ service. lift (inner.check service);
          sleep_ms = λ ms. lift (inner.sleep_ms ms);
        };
        settings = d.cognition.settings;
      };
      serde = d.serde;
      stx = d.stx;
      execute = λ name args. lift (d.execute name args);
      list_schemas = lift d.list_schemas;
      tool_calls_total = λ name status. lift (d.tool_calls_total name status);
      tool_duration_ms = λ ms name. lift (d.tool_duration_ms ms name);
      show_code = d.show_code;
    }

abbrev no_store : Memory (ℕ × Entries ℕ ℕ)
no_store = none

run_turn-Sandboxed_example :
    run_turn
      (with_registry serde compiler (registry none) os served)
      settings
      "key"
      files_only
      no_store
      (message "hi")
      (session "a" [])
      (7, (registry none).entries)
    ≡ run_turn
        (with_registry serde compiler (registry none) (Sandbox.over os spawn_child) served)
        settings
        "key"
        files_only
        no_store
        (message "hi")
        (session "a" [])
        (7, (registry none).entries)
run_turn-Sandboxed_example =
    run_turn-Sandboxed serde compiler (registry none) os spawn_child same_program served settings
      "key" files_only no_store (message "hi") (session "a" []) (7, (registry none).entries)
