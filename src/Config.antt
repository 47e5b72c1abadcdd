-- ===== src/Config.antt =====
-- orchestrator/src/config.rs: the settings, and how they are loaded. A path is its text.
pub mod Listed
use ai_assistant.Prelude.{
  ℕ, String, ◌<>◌, List, [], ◌∷◌, Option, Result, ok, err, Chars, chars, from_chars, split, trim,
  show_ℕ, and_then, Io, pure, ◌>>=◌, ◌>>◌,
}

-- Timeouts and delays are in seconds; `max_retries` is a u32.
pub record CognitionEngineSettings : Type 0 where
  pub address : String
  pub connect_timeout_secs : ℕ
  pub request_timeout_secs : ℕ
  pub max_retries : ℕ

pub record QdrantSettings : Type 0 where
  pub url : String
  pub api_key : Option String
  pub collection_prefix : String

pub record ToolSettings : Type 0 where
  pub tools_dir : String
  pub default_timeout_secs : ℕ
  pub max_memory_pages : ℕ
  pub sandbox_root : String
  pub allowed_binaries : List String
  pub max_output_bytes : ℕ

pub record AgentSettings : Type 0 where
  pub max_tool_iterations : ℕ
  pub session_idle_timeout_secs : ℕ
  pub max_context_tokens : ℕ
  pub rate_limit_rpm : ℕ
  pub heartbeat_interval_secs : ℕ

pub record AuthSettings : Type 0 where
  pub token : Option String
  pub allowed_tools : List String
  pub allowed_models : List String

pub record HttpSettings : Type 0 where
  pub host : String
  pub port : ℕ
  pub grpc_health_port : ℕ

unfoldable pub listen_address : HttpSettings → String
listen_address http = http.host <> (":" <> show_ℕ http.port)

-- What a deserialiser shows the visitor: a text, a sequence whose elements may fail, or another value,
-- by its kind.
pub data Given : Type 0 where
  str : String → Given
  seq : List (Result String String) → Given
  other : String → Given

abbrev pub nonempty : Chars → List String → List String
nonempty [] rest = rest
nonempty (c ∷ s) rest = from_chars (c ∷ s) ∷ rest

-- The parts, trimmed, without the empty ones.
unfoldable pub cleaned : List Chars → List String
cleaned [] = []
cleaned (part ∷ parts) = nonempty (trim part) (cleaned parts)

unfoldable pub visit_str : String → List String
visit_str v = cleaned (split b',' (chars v))

abbrev pub pushed : String → Result String (List String) → Result String (List String)
pushed s (ok out) = ok (s ∷ out)
pushed s (err e) = err e

-- The first element that fails ends the loop.
unfoldable pub visit_seq : List (Result String String) → Result String (List String)
visit_seq [] = ok []
visit_seq (err e ∷ rest) = err e
visit_seq (ok s ∷ rest) = pushed s (visit_seq rest)

unfoldable pub deserialize_comma_separated_vec : Given → Result String (List String)
deserialize_comma_separated_vec (str v) = ok (visit_str v)
deserialize_comma_separated_vec (seq elements) = visit_seq elements
deserialize_comma_separated_vec (other kind) =
    err ("invalid type: " <> (kind <> ", expected a sequence or a comma-separated string"))

pub record TelemetrySettings : Type 0 where
  pub log_level : String
  pub log_format : String
  pub otlp_endpoint : Option String
  pub service_name : String
  pub sampling_rate : String

-- A float is its text.
pub record Settings : Type 0 where
  pub cognition_engine : CognitionEngineSettings
  pub qdrant : QdrantSettings
  pub http : HttpSettings
  pub tools : ToolSettings
  pub agent : AgentSettings
  pub telemetry : TelemetrySettings
  pub auth : AuthSettings

pub data Default : Type 0 where
  text_default float_default : String → Default
  number_default : ℕ → Default
  list_default : List String → Default

abbrev pub defaults : List (String × Default)
defaults =
    ("cognition_engine.address", text_default "http://localhost:50051")
    ∷ ("cognition_engine.connect_timeout_secs", number_default 5)
    ∷ ("cognition_engine.request_timeout_secs", number_default 60)
    ∷ ("cognition_engine.max_retries", number_default 3)
    ∷ ("qdrant.url", text_default "http://localhost:6334")
    ∷ ("qdrant.collection_prefix", text_default "agent")
    ∷ ("http.host", text_default "0.0.0.0")
    ∷ ("http.port", number_default 8080)
    ∷ ("http.grpc_health_port", number_default 8081)
    ∷ ("tools.tools_dir", text_default "tools")
    ∷ ("tools.default_timeout_secs", number_default 10)
    ∷ ("tools.max_memory_pages", number_default 256)
    ∷ ("tools.sandbox_root", text_default ".")
    ∷ ("tools.allowed_binaries", list_default [])
    ∷ ("tools.max_output_bytes", number_default 65_536)
    ∷ ("agent.max_tool_iterations", number_default 10)
    ∷ ("agent.session_idle_timeout_secs", number_default 1800)
    ∷ ("agent.max_context_tokens", number_default 8000)
    ∷ ("agent.rate_limit_rpm", number_default 60)
    ∷ ("agent.heartbeat_interval_secs", number_default 30)
    ∷ ("telemetry.log_level", text_default "info")
    ∷ ("telemetry.log_format", text_default "json")
    ∷ ("telemetry.service_name", text_default "orchestrator")
    ∷ ("telemetry.sampling_rate", float_default "1.0")
    ∷ ("auth.allowed_tools", list_default [])
    ∷ ("auth.allowed_models", list_default [])
    ∷ []

-- The crate `config`: a builder, which a default may make fail, the environment with its prefix and
-- separators, and the deserialiser. `dotenv` has its errors dropped.
pub record Builder (W B C : Type 0) : Type 0 where
  pub dotenv : Io W Unit
  pub builder : B
  pub set_default : String → Default → B → Result String B
  pub environment : String → String → String → B → B
  pub build : B → Io W (Result String C)
  pub try_deserialize : C → Result String Settings

module _ {W B C : Type 0} (config : Builder W B C) where
  open config use {dotenv, builder, set_default, environment, build, try_deserialize}

  unfoldable pub set_defaults : List (String × Default) → B → Result String B
  set_defaults [] b = ok b
  set_defaults ((key, value) ∷ rest) b = and_then (set_default key value b) (set_defaults rest)

  abbrev built : Result String B → Io W (Result String Settings)
  built (err e) = pure (err e)
  built (ok b) = do c ← build (environment "ORCH" "__" "__" b); pure (and_then c try_deserialize)

  unfoldable pub load : Io W (Result String Settings)
  load = do dotenv; built (set_defaults defaults builder)
