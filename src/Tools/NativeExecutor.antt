-- ===== src/Tools/NativeExecutor.antt =====
-- orchestrator/src/tool_registry/native_executor.rs: a tool that is a program of the operating
-- system. Processes, the timer and the decoding of bytes as text are an interface.
pub mod Argv
pub mod Sandbox
use ai_assistant.Prelude.{
  ℕ, ◌-◌, String, ◌<>◌, Bool, true, false, not, ◌||◌, List, [], ◌∷◌, ◌++◌, Option, none, some, ℤ,
  negsuc, Io, pure, ◌>>=◌, Result, ok, err, is_some, contains, length, take, leb, if◌then◌else◌,
}
use ai_assistant.Errors.{ToolError, execution, permission_denied, timed_out}
use ai_assistant.Json.{Value, null, bool, number, string, object, Fields, end, field, Serde, get}
use ai_assistant.Tools.Definition.{ArgDef, ToolDefinition}

-- What `Command` is given. The environment is empty but for `env`; standard input is a pipe or null.
pub record Command : Type 0 where
  pub program : String
  pub args : List String
  pub current_dir : String
  pub env : List (String × String)
  pub piped_stdin : Bool

-- A byte is a number; a process that a signal ended has no code.
pub record Output : Type 0 where
  pub stdout : List ℕ
  pub stderr : List ℕ
  pub code : Option ℤ

-- `P` is a running process. An error is its text. `timeout` runs an action for so many seconds at
-- most; `len` is the number of bytes of a text, and `from_i32` the number as JSON.
pub record Os (W N P : Type 0) : Type 0 where
  pub var : String → Io W (Option String)
  pub spawn_child : Command → Io W (Result String P)
  pub write_all : P → String → Io W (Result String Unit)
  pub wait_with_output : P → Io W (Result String Output)
  pub timeout : ℕ → Io W (Result ToolError String) → Io W (Option (Result ToolError String))
  pub from_utf8_lossy : List ℕ → String
  pub len : String → ℕ
  pub from_i32 : ℤ → N

-- The variables that a program inherits.
abbrev pub forwarded : List String
forwarded = "PATH" ∷ "HOME" ∷ "LANG" ∷ "TERM" ∷ "TZ" ∷ []

module _ {N : Type 0} (serde : Serde N) where
  unfoldable pub json_value_to_string : Value N → String
  json_value_to_string (string s) = s
  json_value_to_string other = serde.to_string other

  -- What pass 1 pushes for the value of a positional argument.
  unfoldable pub push_value : Option (Value N) → List String
  push_value none = []
  push_value (some null) = []
  push_value (some v) = json_value_to_string v ∷ []

  -- What pass 2 pushes for the value of any other argument.
  unfoldable pub push_flag : String → Option (Value N) → List String
  push_flag name none = []
  push_flag name (some null) = []
  push_flag name (some (bool true)) = ("--" <> name) ∷ []
  push_flag name (some (bool false)) = []
  push_flag name (some v) = ("--" <> name <> "=" <> json_value_to_string v) ∷ []

  -- Pass 1 and pass 2, each over the arguments in the order of the definition.
  unfoldable pub positionals : List (ArgDef N) → Fields N → List String
  positionals [] obj = []
  positionals (arg ∷ rest) obj =
      let more = positionals rest obj in
      if not arg.positional || arg.is_stdin then more else push_value (get arg.name obj) ++ more

  unfoldable pub flags : List (ArgDef N) → Fields N → List String
  flags [] obj = []
  flags (arg ∷ rest) obj =
      let more = flags rest obj in
      if arg.positional || arg.is_stdin then more else push_flag arg.name (get arg.name obj) ++ more

  unfoldable pub build_argv : ToolDefinition N → Value N → List String
  build_argv definition (object obj) =
      definition.command_args ++ positionals definition.args obj ++ flags definition.args obj
  build_argv definition _ = definition.command_args

  -- The text that is piped to the process: that of the first argument marked for it.
  abbrev as_str : Option (Value N) → Option String
  as_str (some (string s)) = some s
  as_str _ = none

  abbrev value_of : String → Value N → Option (Value N)
  value_of name (object obj) = get name obj
  value_of name _ = none

  unfoldable pub stdin_content : List (ArgDef N) → Value N → Option String
  stdin_content [] args = none
  stdin_content (arg ∷ rest) args =
      let later = stdin_content rest args in
      if arg.is_stdin then as_str (value_of arg.name args) else later

module _ {W N P : Type 0} (serde : Serde N) (os : Os W N P) where
  open os use {
    var, spawn_child, write_all, wait_with_output, timeout, from_utf8_lossy, len, from_i32,
  }

  -- Bytes past the limit are dropped, and the marker is put in their place.
  unfoldable pub truncate : List ℕ → ℕ → String
  truncate bytes limit =
      if leb (length bytes) limit
      then from_utf8_lossy bytes
      else from_utf8_lossy (take limit bytes) <> "\n[truncated]"

  abbrev exit_code : Option ℤ → ℤ
  exit_code none = negsuc 0
  exit_code (some c) = c

  -- The keys stand in the order of the map that `json!` builds.
  unfoldable pub show_output : ℕ → Output → String
  show_output max_output_bytes output =
      let stdout = truncate output.stdout max_output_bytes in
      let stderr = truncate output.stderr (max_output_bytes - len stdout) in
      serde.to_string (
        object (
          field "exit_code" (number (from_i32 (exit_code output.code)))
            (field "stderr" (string stderr) (field "stdout" (string stdout) end))))

  abbrev failed : String → String → String → Result ToolError String
  failed what binary e = err (execution ("failed to " <> what <> " `" <> binary <> "`: " <> e))

  unfoldable pub collect : String → ℕ → Result String Output → Result ToolError String
  collect binary max_output_bytes (err e) = failed "wait for" binary e
  collect binary max_output_bytes (ok output) = ok (show_output max_output_bytes output)

  abbrev wait : String → ℕ → P → Io W (Result ToolError String)
  wait binary max_output_bytes child = do
    output ← wait_with_output child
    pure (collect binary max_output_bytes output)

  unfoldable pub written : String → ℕ → P → Result String Unit → Io W (Result ToolError String)
  written binary max_output_bytes child (err e) =
      pure (err (execution ("failed to write stdin: " <> e)))
  written binary max_output_bytes child (ok _) = wait binary max_output_bytes child

  unfoldable pub feed : String → ℕ → Option String → P → Io W (Result ToolError String)
  feed binary max_output_bytes none child = wait binary max_output_bytes child
  feed binary max_output_bytes (some content) child = do
    r ← write_all child content
    written binary max_output_bytes child r

  unfoldable pub spawned :
      String → ℕ → Option String → Result String P → Io W (Result ToolError String)
  spawned binary max_output_bytes content (err e) = pure (failed "spawn" binary e)
  spawned binary max_output_bytes content (ok child) = feed binary max_output_bytes content child

  abbrev unwrap_or_default : Option String → String
  unwrap_or_default none = ""
  unwrap_or_default (some v) = v

  -- The values of the variables that are passed on.
  unfoldable pub read_env : List String → Io W (List (String × String))
  read_env [] = pure []
  read_env (name ∷ names) = do
    v ← var name
    rest ← read_env names
    pure ((name, unwrap_or_default v) ∷ rest)

  unfoldable pub spawn :
      String → List String → Option String → String → ℕ → Io W (Result ToolError String)
  spawn binary argv content sandbox_root max_output_bytes = do
    env ← read_env forwarded
    child ← spawn_child (record {
      program = binary;
      args = argv;
      current_dir = sandbox_root;
      env = env;
      piped_stdin = is_some content;
    })
    spawned binary max_output_bytes content child

  abbrev in_time : ℕ → Option (Result ToolError String) → Result ToolError String
  in_time secs none = err (timed_out secs)
  in_time secs (some r) = r

  -- A program that the list allows, with a time limit.
  unfoldable pub run_allowed :
      ToolDefinition N → Value N → String → ℕ → String → Bool → Io W (Result ToolError String)
  run_allowed definition args sandbox_root max_output_bytes binary false =
      pure
        (err (permission_denied ("binary `" <> binary <> "` is not in the allowed_binaries list")))
  run_allowed definition args sandbox_root max_output_bytes binary true = do
    let content = stdin_content serde definition.args args
    let argv = build_argv serde definition args
    r ← timeout definition.timeout_secs (spawn binary argv content sandbox_root max_output_bytes)
    pure (in_time definition.timeout_secs r)

  unfoldable pub run_binary :
      ToolDefinition N
      → Value N
      → List String
      → String
      → ℕ
      → Option String
      → Io W (Result ToolError String)
  run_binary definition args allowed_binaries sandbox_root max_output_bytes none =
      pure (err (execution "native tool has no `binary` field"))
  run_binary definition args allowed_binaries sandbox_root max_output_bytes (some binary) =
      run_allowed definition args sandbox_root max_output_bytes binary
        (contains allowed_binaries binary)

  unfoldable pub run :
      ToolDefinition N → Value N → List String → String → ℕ → Io W (Result ToolError String)
  run definition args allowed_binaries sandbox_root max_output_bytes =
      run_binary definition args allowed_binaries sandbox_root max_output_bytes definition.binary
