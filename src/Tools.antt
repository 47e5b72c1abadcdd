-- ===== src/Tools.antt =====
-- orchestrator/src/tool_registry/.
pub mod Definition
pub mod NativeExecutor
pub mod Registry
pub mod WasmExecutor
pub mod ReadFile
