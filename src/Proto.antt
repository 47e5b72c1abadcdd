-- ===== src/Proto.antt =====
-- proto/cognition.proto: the messages that the client exchanges with the Cognition Engine. An
-- int32 is an integer of `ℤ`; a float, which the client never computes with, is its bit pattern.
use ai_assistant.Prelude.{ℕ, String, Bool, List, ℤ}

pub record RequestContext : Type 0 where
  pub session_id : String
  pub auth_token : String

pub record Message : Type 0 where
  pub role : String
  pub content : String

pub record CompleteRequest : Type 0 where
  pub context : RequestContext
  pub messages : List Message
  pub model : String
  pub temperature : ℕ
  pub max_tokens : ℤ

pub record CompleteResponse : Type 0 where
  pub content : String
  pub model_used : String
  pub input_tokens : ℤ
  pub output_tokens : ℤ
  pub finish_reason : String

pub record CountTokensRequest : Type 0 where
  pub context : RequestContext
  pub messages : List Message
  pub model : String

pub record CountTokensResponse : Type 0 where
  pub token_count : ℤ
  pub fits_budget : Bool
  pub remaining_tokens : ℤ

pub record ParseOutputRequest : Type 0 where
  pub context : RequestContext
  pub raw_response : String
  pub schema_json : String
  pub context_messages : List Message

pub record ParseOutputResponse : Type 0 where
  pub parsed_json : String
  pub repaired : Bool
  pub re_prompted : Bool
