-- ===== src/Lib.antt =====
-- Verification library of the orchestrator, the Rust program under orchestrator/.
--
-- The orchestrator receives a user's message over HTTP or a WebSocket, finds or creates the session,
-- and runs the agent loop on it: it asks the Cognition Engine for a completion, runs the tool that
-- the reply calls for, and goes on until a reply is no tool call. A background task checks the engine
-- and the vector store and removes idle sessions.
--
-- Which file models which part (paths from the repository's root):
--   Prelude        lists, maps, results, decimal numbers and `Io W A = W → A × W`, an action on the
--                  state `W` of all that is outside the program
--   Errors         orchestrator/src/errors.rs
--   Config         orchestrator/src/config.rs; Config/Listed is on the lists in it
--   AccessControl  orchestrator/src/access_control/mod.rs
--   Proto          proto/cognition.proto, the messages
--   Session        orchestrator/src/session/mod.rs: `SessionStore` with `create`, `get`, `remove`,
--                  `cleanup_expired`; laws in Session/Invariant, Session/Lookup, Session/Cleanup;
--                  Session/View is the store as a map, Session/View/Refines the proof
--   Cognition      orchestrator/src/cognition_client/mod.rs: `complete`, `count_tokens`,
--                  `parse_output`, `health_check`, `with_retry`; laws in Cognition/Retry and
--                  Cognition/Cost;
--                  Cognition/Connect has `connect` and `stream_complete`
--   Json           the values of serde_json that the program builds and takes apart
--   Tools          orchestrator/src/tool_registry/: Tools/Definition is definition.rs, with
--                  `validate_args`, and Tools/Definition/Parse its `parse_tool_md`;
--                  Tools/NativeExecutor is native_executor.rs, with `build_argv` and `run`;
--                  Tools/Registry is mod.rs, with `execute` and the cache of modules, and `load` in
--                  Tools/Registry/Load; Rule is an induction rule for a call;
--                  Tools/WasmExecutor is executor.rs, whose `run` is the registry's `run_module`;
--                  Tools/ReadFile is orchestrator/tools/src/read_file/src/main.rs
--   Memory         orchestrator/src/memory/: the embedding engine; Memory/Store has the operations of
--                  store.rs, Points what Qdrant is relied on for, Conversation and Names the proofs
--   AgentLoop      orchestrator/src/agent_loop/mod.rs: `run_turn` in parts that are named for its
--                  steps; AgentLoop/Trim is the token trimming, AgentLoop/Prompt is
--                  `build_system_prompt`, AgentLoop/Protocol is agent_loop/protocol.rs, and
--                  AgentLoop/Fence its regular expression `TOOL_CALL_RE` as a matcher, with laws in
--                  its children.
--                  AgentLoop/Rule is an induction rule for a turn, and Policy, History, Outcome,
--                  Rollback and Requests hold the laws; WithRegistry is a turn over the registry
--                  of Tools
--   Telemetry      orchestrator/src/telemetry/mod.rs: `init` and the instruments; laws in Laws
--   Main           orchestrator/src/main.rs: `main` up to the server, and `init_memory`; laws in Laws
--   Health         orchestrator/src/health/mod.rs and orchestrator/src/heartbeat/mod.rs, whose
--                  loop runs here for a given number of rounds; laws in Laws and Eviction
--   Api            orchestrator/src/api/: webhook.rs, middleware.rs, rate_limit.rs, types.rs, and ws.rs
--                  in Api/WebSocket, whose Protocol is the specification of a connection, Follows, Waits
--                  and Live the proofs, and Store its effect on the session store; Api/Router is
--                  `build_router` of router.rs, and its child Access the proof on who is let in
--   Samples, Examples  concrete inputs, and the theorems at them
--
-- A shared `Arc<Mutex<Session>>` is the address of a cell in the store's heap, so that the map and a
-- task that holds the session share it. A task's work between two of its awaits on the store is one
-- step; `Session.Invariant.Reach` orders the steps of all tasks in any way.
--
-- Loops. The loop over iterations is structural in `max_tool_iterations - iteration`, the
-- retries in `max_retries - attempt`, and the trimming in the history, which each round
-- shortens, so that no fuel is needed. The loop of a WebSocket has as fuel one more than the
-- number of frames, of which each round takes at least one. The heartbeat runs for any number of
-- rounds. Digits are printed with the number itself as fuel. A u32 that is cast to an i32, and
-- the delay of a retry, have their wrap-around.
--
-- Parameters, since their code is not in the repository: the gRPC stub, the clock, the generator of
-- identifiers, the token bucket of the crate governor, the parser and the printers of serde_json,
-- the deserialiser of a tool call, Qdrant, fastembed, processes, the file system, the TOML
-- parser, the crate config, sockets, wasmtime, tracing and opentelemetry. What a turn that is dropped
-- at an await leaves of its session is a parameter as well, since a turn is one action here.
--
-- Not modelled: the shutdown signal of main.rs, the routing of axum, the tonic health server, and the
-- programs beside the Rust orchestrator.
pub mod Prelude
pub mod Errors
pub mod Config
pub mod AccessControl
pub mod Proto
pub mod Session
pub mod Cognition
pub mod Json
pub mod Tools
pub mod Memory
pub mod AgentLoop
pub mod Health
pub mod Api
pub mod Telemetry
pub mod Main
pub mod Samples
pub mod Examples
