-- ===== src/Main.antt =====
-- orchestrator/src/main.rs: how the program starts, up to the server. What its parts do is in their
-- own modules; the network is an interface.
pub mod Laws
use ai_assistant.Prelude.{
  ℕ, String, ◌<>◌, Option, none, some, Io, pure, ◌>>=◌, ◌>>◌, Result, ok, err, show_ℕ,
}
use ai_assistant.Errors.{CognitionError, ToolError, MemoryError}
use ai_assistant.Config.{Builder, Settings, QdrantSettings, listen_address, load as load_settings}
use ai_assistant.Session.{SessionStore, empty}
use ai_assistant.Cognition.{CognitionClient}
use ai_assistant.Cognition.Connect.{Transport, connect}
use ai_assistant.Tools.Definition.{ToolDefinition}
use ai_assistant.Tools.Definition.Parse.{Files, Paths}
use ai_assistant.Tools.Registry.{ToolRegistry}
use ai_assistant.Tools.Registry.Load.{Directories, load as load_tools}
use ai_assistant.Telemetry.{Otel, init}
use ai_assistant.Health.Status.{HealthState, initial}
use ai_assistant.Memory.{Qdrant, Engine, init as init_engine, connect as connect_store}

-- What the parts of the running program share.
pub record Program (W N M V Q : Type 0) : Type 0 where
  pub settings : Settings
  pub sessions : SessionStore
  pub cognition : CognitionClient W
  pub registry : ToolRegistry N M
  pub memory : Option (Qdrant W V Q × String)
  pub engine : Option (Engine W V)
  pub health : HealthState

-- The error of `main`, by the step that it comes from.
pub data Failure : Type 0 where
  config_failed telemetry_failed address_failed bind_failed serve_failed : String → Failure
  cognition_failed : CognitionError → Failure
  tools_failed : ToolError → Failure

-- `A` is a socket's address and `L` a listener. `spawn_heartbeat` starts the task `Health.run`, and
-- `serve` the routes of `Api.Router` until the shutdown signal.
pub record Hosting (W P A L : Type 0) : Type 0 where
  pub parse_addr : String → Result String A
  pub start_grpc_health_server : A → Io W Unit
  pub spawn_heartbeat : P → Io W Unit
  pub bind : String → Io W (Result String L)
  pub serve : L → P → Io W (Result String Unit)

-- `?` after a step.
abbrev pub or_return :
    {W X A B : Type 0}
    → (X → Failure)
    → (A → Io W (Result Failure B))
    → Result X A
    → Io W (Result Failure B)
or_return failure next (err e) = pure (err (failure e))
or_return failure next (ok a) = next a

module _ {W V Q : Type 0} (try_new : Io W (Result String (Engine W V)))
    (build : String → Option String → Result String (Qdrant W V Q)) where
  abbrev connected : QdrantSettings → Result MemoryError Unit → Option (Qdrant W V Q × String)
  connected settings (err e) = none
  connected settings (ok _) = elim (connect_store build settings) [
    | ok store ↦ some store
    | err e ↦ none
  ]

  -- A failure of the engine or of the client leaves the program without a memory store.
  unfoldable pub init_memory :
      QdrantSettings
      → Option (Engine W V)
      → Io W (Option (Qdrant W V Q × String) × Option (Engine W V))
  init_memory settings engine = do
    (made, engine') ← init_engine try_new engine
    pure (connected settings made, engine')

module _ {W P A L : Type 0} (hosting : Hosting W P A L) where
  open hosting use {parse_addr, start_grpc_health_server, spawn_heartbeat, bind, serve}

  abbrev pub served : P → L → Io W (Result Failure Unit)
  served program listener = do
    ended ← serve listener program
    or_return serve_failed (λ u. pure (ok u)) ended

  -- The health server and the heartbeat, and then the server on its address.
  unfoldable pub launch : String → P → A → Io W (Result Failure Unit)
  launch address program addr = do
    start_grpc_health_server addr
    spawn_heartbeat program
    bound ← bind address
    or_return bind_failed (served program) bound

-- The crates that the parts stand on; `wasmtime` is the result of making its engine.
pub record Crates (W B C F S T E N V Q : Type 0) : Type 0 where
  pub config : Builder W B C
  pub otel : Otel W F S T
  pub transport : Transport W E
  pub paths : Paths
  pub from_toml : String → Result String (ToolDefinition N)
  pub files : Files W
  pub dirs : Directories W
  pub wasmtime : Result String Unit
  pub try_new : Io W (Result String (Engine W V))
  pub build : String → Option String → Result String (Qdrant W V Q)

module _ {W B C F S T E N M V Q A L : Type 0} (crates : Crates W B C F S T E N V Q)
    (hosting : Hosting W (Program W N M V Q) A L) where
  open crates use {otel, transport, paths, from_toml, files, dirs, wasmtime, try_new, build}

  -- The memory store, and the program with all its parts.
  unfoldable pub wire : Settings → CognitionClient W → ToolRegistry N M → Io W (Result Failure Unit)
  wire settings cognition registry = do
    (memory, engine) ← init_memory try_new build settings.qdrant none
    let program : Program W N M V Q = record {
      settings = settings;
      sessions = empty;
      cognition = cognition;
      registry = registry;
      memory = memory;
      engine = engine;
      health = initial;
    }
    or_return address_failed (launch hosting (listen_address settings.http) program)
        (hosting.parse_addr ("0.0.0.0:" <> show_ℕ settings.http.grpc_health_port))

  abbrev pub load_registry : Settings → Io W (Result ToolError (ToolRegistry N M))
  load_registry settings =
      load_tools paths from_toml files dirs
        (record {
          max_memory_pages = settings.tools.max_memory_pages;
          sandbox_root = settings.tools.sandbox_root;
          allowed_binaries = settings.tools.allowed_binaries;
          max_output_bytes = settings.tools.max_output_bytes;
        })
        wasmtime settings.tools.tools_dir

  -- The tools are loaded when the client is there.
  unfoldable pub with_client : Settings → CognitionClient W → Io W (Result Failure Unit)
  with_client settings cognition = do
    registry ← load_registry settings
    or_return tools_failed (wire settings cognition) registry

  unfoldable pub with_logging : Settings → Io W (Result Failure Unit)
  with_logging settings = do
    client ← connect transport settings.cognition_engine
    or_return cognition_failed (with_client settings) client

  unfoldable pub start : Settings → Io W (Result Failure Unit)
  start settings = do
    logging ← init otel settings.telemetry
    or_return telemetry_failed (λ _. with_logging settings) logging

  unfoldable pub main : Io W (Result Failure Unit)
  main = do loaded ← load_settings crates.config; or_return config_failed start loaded
