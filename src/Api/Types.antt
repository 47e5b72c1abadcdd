-- ===== src/Api/Types.antt =====
-- orchestrator/src/api/types.rs: the bodies of requests and responses.
use ai_assistant.Prelude.{String, Option, none, some, ℤ}

pub record UserMessage : Type 0 where
  pub session_id : Option String
  pub message : String
  pub model : Option String

pub record AgentReply : Type 0 where
  pub session_id : String
  pub content : String
  pub model_used : String
  pub input_tokens : ℤ
  pub output_tokens : ℤ

pub record ErrorResponse : Type 0 where
  pub error : String
  pub code : String
  pub session_id : Option String

-- `ErrorResponse::new` and `with_session`
unfoldable pub error_response : String → String → ErrorResponse
error_response code message = record { error = message; code = code; session_id = none }

unfoldable pub with_session : ErrorResponse → String → ErrorResponse
with_session e id = record e { session_id = some id }
