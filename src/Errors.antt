-- ===== src/Errors.antt =====
-- orchestrator/src/errors.rs: the error enums and the texts that `to_string()` gives. The causes
-- of other crates (`anyhow::Error`, the transport's error) are their texts.
use ai_assistant.Prelude.{ℕ, String, ◌<>◌, show_ℕ}

-- The status codes that the program names, and any other by its number.
pub data Code : Type 0 where
  unavailable resource_exhausted deadline_exceeded unknown : Code
  other : ℕ → Code

-- `tonic::Status`, as far as it is read.
pub record Status : Type 0 where
  pub code : Code
  pub message : String

pub data CognitionError : Type 0 where
  connection : String → CognitionError
  rpc : Code → String → CognitionError
  timeout retries_exhausted : CognitionError

-- `From<tonic::Status>`
abbrev pub from_status : Status → CognitionError
from_status s = rpc s.code s.message

pub data ToolError : Type 0 where
  not_found : String → ToolError
  parse_error : String → String → ToolError
  compile : String → ToolError
  execution : String → ToolError
  timed_out : ℕ → ToolError
  permission_denied : String → ToolError
  invalid_args : String → ToolError

pub data MemoryError : Type 0 where
  qdrant : String → MemoryError
  embedding : String → MemoryError
  collection_not_ready : String → MemoryError

pub data OrchestratorError : Type 0 where
  session_not_found : String → OrchestratorError
  session_busy : OrchestratorError
  cognition_engine : CognitionError → OrchestratorError
  tool : ToolError → OrchestratorError
  memory : MemoryError → OrchestratorError
  auth : String → OrchestratorError
  max_iterations_exceeded : ℕ → OrchestratorError
  internal : String → OrchestratorError

-- `to_string()` of the errors; `show_code` is the status code's own text.
unfoldable pub show_cognition : (Code → String) → CognitionError → String
show_cognition show_code (connection e) = "Connection failed: " <> e
show_cognition show_code (rpc c m) = "RPC failed (" <> show_code c <> "): " <> m
show_cognition show_code timeout = "Timeout"
show_cognition show_code retries_exhausted = "All retries exhausted"

unfoldable pub show_tool : ToolError → String
unfolding show_ℕ
show_tool (not_found n) = "Tool not found: " <> n
show_tool (parse_error file source) = "Tool definition parse error in " <> file <> ": " <> source
show_tool (compile e) = "Wasm compile error: " <> e
show_tool (execution e) = "Wasm execution error: " <> e
show_tool (timed_out secs) = "Tool timed out after " <> show_ℕ secs <> "s"
show_tool (permission_denied e) = "Permission denied: " <> e
show_tool (invalid_args e) = "Invalid arguments: " <> e

unfoldable pub show_memory : MemoryError → String
show_memory (qdrant e) = "Qdrant error: " <> e
show_memory (embedding e) = "Embedding error: " <> e
show_memory (collection_not_ready s) = "Collection not initialised for session: " <> s

unfoldable pub show_error : (Code → String) → OrchestratorError → String
unfolding show_cognition show_tool show_memory show_ℕ
show_error show_code (session_not_found s) = "Session not found: " <> s
show_error show_code session_busy = "Session is already being processed"
show_error show_code (cognition_engine e) = "Cognition Engine error: " <> show_cognition show_code e
show_error show_code (tool e) = "Tool error: " <> show_tool e
show_error show_code (memory e) = "Memory error: " <> show_memory e
show_error show_code (auth e) = "Authentication error: " <> e
show_error show_code (max_iterations_exceeded n) =
    "Agent loop exceeded max iterations (" <> show_ℕ n <> ")"
show_error show_code (internal e) = "Internal error: " <> e
