-- ===== src/Samples.antt =====
-- Concrete surroundings, settings and sessions for the examples. The world is the number of ticks so
-- far.
use ai_assistant.Prelude.{
  ℕ, suc, ◌+◌, ◌*◌, String, Bool, true, false, List, [], ◌∷◌, Option, none, some, pos, Io, Result,
  ok, err,
}
use ai_assistant.Errors.{unavailable, Status}
use ai_assistant.Config.{AgentSettings, AuthSettings}
use ai_assistant.AccessControl.{AccessPolicy}
use ai_assistant.Proto.{Message, CompleteResponse, CountTokensResponse}
use ai_assistant.Session.{Session, idle, Clock, Cell, SessionStore}
use ai_assistant.Cognition.{CognitionClient}
use ai_assistant.Json.{Value, Fields, end, field, object, string, Serde}
use ai_assistant.Tools.Definition.{native, ArgDef, ToolDefinition}
use ai_assistant.AgentLoop.{Deps, Memory}
use ai_assistant.AgentLoop.Protocol.{ToolCall, ToolCallSyntax}
use ai_assistant.Api.Types.{UserMessage}
use ai_assistant.Api.Webhook.{WebhookState}

-- One tick is a second, and reading the clock takes one.
abbrev pub clock : Clock ℕ
clock = record { now = λ w. (w * 1_000_000_000, suc w) }

abbrev pub say : String → String → Message
say role content = record { role = role; content = content }

abbrev pub tokens : ℕ → CountTokensResponse
tokens n = record { token_count = pos n; fits_budget = true; remaining_tokens = pos 0 }

abbrev completion : String → CompleteResponse
completion content = record {
  content = content;
  model_used = "m";
  input_tokens = pos 1;
  output_tokens = pos 1;
  finish_reason = "stop";
}

-- The engine first calls the tool `files`, then the tool `shell`, then answers.
abbrev script : List Message → String
script (a ∷ b ∷ []) = "```tool_call\nfiles\n```"
script (a ∷ b ∷ c ∷ d ∷ []) = "```tool_call\nshell\n```"
script _ = "done"

abbrev refused : Status
refused = record { code = unavailable; message = "busy" }

-- An engine with the given token count.
abbrev engine : Result Status CountTokensResponse → CognitionClient ℕ
engine counted = record {
  inner = record {
    complete = λ req w. (ok (completion (script req.messages)), suc w);
    count_tokens = λ req w. (counted, suc w);
    parse_output = λ req w. (err refused, suc w);
    check = λ service w. (ok tt, suc w);
    sleep_ms = λ ms w. (tt, w + ms);
  };
  settings = record {
    address = "http://engine";
    connect_timeout_secs = 5;
    request_timeout_secs = 60;
    max_retries = 1;
  };
}

abbrev shown : Value ℕ → String
shown (string s) = s
shown _ = "{}"

abbrev pub path_args : Fields ℕ
path_args = field "path" (string "a.txt") end

-- The only document is the object with a `path`.
abbrev pub serde : Serde ℕ
serde = record {
  is_i64 = λ n. true;
  from_str = λ s. ok (object path_args);
  to_string = shown;
  to_string_pretty = shown;
}

abbrev pub call : String → ToolCall ℕ
call tool = record { tool = tool; call_id = "1"; args = object end }

-- The text of a fence is the name of its tool.
abbrev pub stx : ToolCallSyntax ℕ
stx = record { from_str = λ json. some (call json) }

abbrev pub arg : String → Bool → Option (Value ℕ) → ArgDef ℕ
arg name required default = record {
  name = name;
  ty = "string";
  required = required;
  description = "";
  default = default;
  positional = true;
  is_stdin = false;
}

abbrev pub tool : String → List (ArgDef ℕ) → ToolDefinition ℕ
tool name args = record {
  name = name;
  version = "1";
  description = "";
  backend = native;
  wasm = none;
  binary = some "cat";
  command_args = "-n" ∷ [];
  timeout_secs = 10;
  permissions = record { fs_read = true; fs_write = false; network = false; sandbox_root = none };
  args = args;
  docs = "";
}

abbrev pub deps : Result Status CountTokensResponse → Deps ℕ ℕ
deps counted = record {
  clock = clock;
  cognition = engine counted;
  serde = serde;
  stx = stx;
  execute = λ name args w. (ok "contents", suc w);
  list_schemas = λ w. (tool "files" [] ∷ [], suc w);
  tool_calls_total = λ name status w. (tt, suc w);
  tool_duration_ms = λ ms name w. (tt, suc w);
  show_code = λ c. "code";
}

abbrev pub settings : AgentSettings
settings = record {
  max_tool_iterations = 3;
  session_idle_timeout_secs = 60;
  max_context_tokens = 100;
  rate_limit_rpm = 60;
  heartbeat_interval_secs = 30;
}

-- Only `files` is permitted.
abbrev pub files_only : AccessPolicy
files_only = record { allowed_tools = some ("files" ∷ []); allowed_models = none }

abbrev pub auth : Option String → AuthSettings
auth token = record { token = token; allowed_tools = "files" ∷ []; allowed_models = [] }

abbrev pub no_memory : Memory ℕ
no_memory = none

abbrev pub session : String → List Message → Session
session id history = record {
  session_id = id;
  created_at = 0;
  last_active = 0;
  state = idle;
  conversation_history = history;
  metadata = [];
}

abbrev pub greeted : List Message
greeted = say "system" "prompt" ∷ say "user" "hi" ∷ say "assistant" "hello" ∷ []

abbrev pub cell : String → Bool → Cell
cell id locked = record { session = session id []; locked = locked }

-- Two sessions, and a task holds the lock of the second.
abbrev pub two : SessionStore
two = record { sessions = ("a", 0) ∷ ("b", 1) ∷ []; cells = cell "a" false ∷ cell "b" true ∷ [] }

-- A generator that gives an identifier of none of them.
abbrev pub new_v4 : Io ℕ String
new_v4 w = ("c", suc w)

abbrev pub webhook : WebhookState ℕ ℕ
webhook = record {
  deps = deps (ok (tokens 10));
  memory = no_memory;
  rate_limiter = none;
  agent = settings;
  new_v4 = new_v4;
  requests_total = λ w. (tt, w);
  request_duration_ms = λ ms w. (tt, w);
}

abbrev pub to_session : Option String → UserMessage
to_session id = record { session_id = id; message = "hi"; model = none }
