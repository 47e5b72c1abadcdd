-- ===== src/Tools/WasmExecutor.antt =====
-- orchestrator/src/tool_registry/executor.rs: a compiled module that is run in a sandbox of its own.
-- wasmtime and the encodings of texts are interfaces; a byte is a number.
pub mod Sandbox
use ai_assistant.Prelude.{
  ℕ, ◌+◌, ◌*◌, ◌-◌, ◌%◌, ◌^◌, String, ◌<>◌, Bool, true, false, not, ◌&&◌, ◌||◌, List, [], ◌∷◌,
  Option, none, some, ℤ, pos, negsuc, as_i32, Io, pure, ◌>>=◌, Result, ok, err, map_err, length,
  is_some, chars, split_once, if◌then◌else◌,
}
use ai_assistant.Errors.{ToolError, execution, timed_out}
use ai_assistant.Tools.Definition.{ToolDefinition, ToolPermissions}

abbrev pub Bytes : Type 0
Bytes = List ℕ

-- `DirPerms` and `FilePerms`, which the code always gives alike.
pub data Perms : Type 0 where
  read_only all : Perms

-- `preopened_dir(host, guest, dir_perms, file_perms)`
pub record Preopen : Type 0 where
  pub host : String
  pub guest : String
  pub dir_perms : Perms
  pub file_perms : Perms

-- What the store of an instance holds: the WASI context, the limits and the fuel.
pub record Confined : Type 0 where
  pub stdin : Bytes
  pub stdout_capacity : ℕ
  pub preopens : List Preopen
  pub memories : ℕ
  pub fuel : ℕ

-- `I` is an instance with its store. The error of `start` is the texts of its causes, the others are
-- their own text. `under_timeout` gives `none` if the time is over, and an error if the task is lost.
pub record Wasmtime (W M I : Type 0) : Type 0 where
  pub preopened_dir : Preopen → Io W (Result String Unit)
  pub set_fuel : ℕ → Io W (Result String Unit)
  pub add_to_linker_sync : Io W (Result String Unit)
  pub instantiate : Confined → M → Io W (Result String I)
  pub has_run : I → Io W Bool
  pub has_memory : I → Io W Bool
  pub has_alloc : I → Io W Bool
  pub call_alloc : I → ℤ → Io W (Result String ℤ)
  pub write : I → ℕ → Bytes → Io W (Result String Unit)
  pub call_run : I → ℤ → ℤ → Io W (Result String ℤ)
  pub read : I → ℕ → ℕ → Io W (Result String Bytes)
  pub has_start : I → Io W Bool
  pub call_start : I → Io W (Result (List String) Unit)
  pub stdout : I → Io W Bytes
  pub under_timeout :
      ℕ → Io W (Result ToolError String) → Io W (Option (Result String (Result ToolError String)))

pub record Utf8 : Type 0 where
  pub as_bytes : String → Bytes
  pub from_utf8 : Bytes → Result String String

-- `as usize` on an i32, with 64 bits.
unfoldable pub as_usize : ℤ → ℕ
as_usize (pos n) = n
as_usize (negsuc n) = 2 ^ 64 - 1 - n

-- `u32::from_le_bytes`
unfoldable pub from_le_bytes : Bytes → ℕ
from_le_bytes [] = 0
from_le_bytes (b ∷ bs) = b + 256 * from_le_bytes bs

-- Whether a cause of the error says that the program left with status 0.
unfoldable pub is_clean_exit : List String → Bool
is_clean_exit [] = false
is_clean_exit (msg ∷ causes) =
    is_some (split_once (chars "exit status 0") (chars msg))
    || is_some (split_once (chars "i32 exit status 0") (chars msg))
    || is_clean_exit causes

-- The directory that the module is given.
unfoldable pub preopen : ToolPermissions → String → Option Preopen
preopen permissions sandbox_root =
    if permissions.fs_read && not permissions.fs_write
    then some
        (record { host = sandbox_root; guest = "."; dir_perms = read_only; file_perms = read_only })
    else if permissions.fs_write
    then some (record { host = sandbox_root; guest = "."; dir_perms = all; file_perms = all })
    else none

abbrev pub listed : Option Preopen → List Preopen
listed none = []
listed (some p) = p ∷ []

-- `?` with `map_err(ToolError::Execution)`.
abbrev pub or_err :
    {W A : Type 0}
    → (A → Io W (Result ToolError String))
    → Result String A
    → Io W (Result ToolError String)
or_err k (ok a) = k a
or_err k (err e) = pure (err (execution e))

abbrev pub or_fail :
    {W A : Type 0}
    → Io W (Result String A)
    → (A → Io W (Result ToolError String))
    → Io W (Result ToolError String)
or_fail act k = do r ← act; or_err k r

abbrev pub joined : ℕ → Option (Result String (Result ToolError String)) → Result ToolError String
joined secs none = err (timed_out secs)
joined secs (some (err e)) = err (execution e)
joined secs (some (ok result)) = result

module _ {W M I : Type 0} (wasm : Wasmtime W M I) (utf8 : Utf8) where
  open wasm use {
    preopened_dir, set_fuel, add_to_linker_sync, instantiate, has_run, has_memory, has_alloc,
    call_alloc, write, call_run, read, has_start, call_start, stdout, under_timeout,
  }
  open utf8 use {as_bytes, from_utf8}

  -- The length, and the text behind it.
  unfoldable pub read_result : I → ℤ → Io W (Result ToolError String)
  read_result instance result_ptr = or_fail (read instance (as_usize result_ptr) 4) λ len_bytes.
      or_fail (read instance ((as_usize result_ptr + 4) % 2 ^ 64) (from_le_bytes len_bytes))
        λ result_bytes. pure (map_err execution (from_utf8 result_bytes))

  unfoldable pub alloc_args : I → Bool → ℤ → Io W (Result String ℤ)
  alloc_args instance true args_len = call_alloc instance args_len
  alloc_args instance false args_len = pure (ok (pos 0))

  -- The length as an i32, from a usize.
  unfoldable pub run_export : I → String → Bool → Io W (Result ToolError String)
  run_export instance args_json false = pure (err (execution "Wasm module has no `memory` export"))
  run_export instance args_json true = do
    let args_bytes = as_bytes args_json
    let args_len = as_i32 (length args_bytes % 2 ^ 32)
    allocates ← has_alloc instance
    or_fail (alloc_args instance allocates args_len) λ args_ptr.
        or_fail (write instance (as_usize args_ptr) args_bytes)
          λ _. or_fail (call_run instance args_ptr args_len) (read_result instance)

  abbrev output : Bytes → Result ToolError String
  output [] = ok "{}"
  output (b ∷ bytes) =
      map_err (λ e. execution ("tool stdout is not valid UTF-8: " <> e)) (from_utf8 (b ∷ bytes))

  unfoldable pub captured : I → Io W (Result ToolError String)
  captured instance = do bytes ← stdout instance; pure (output bytes)

  -- What the causes of an error are as one text is left to `show`.
  unfoldable pub started :
      (List String → String) → I → Result (List String) Unit → Io W (Result ToolError String)
  started show instance (ok _) = captured instance
  started show instance (err causes) =
      if is_clean_exit causes then captured instance else pure (err (execution (show causes)))

  unfoldable pub start_export : (List String → String) → I → Bool → Io W (Result ToolError String)
  start_export show instance false = captured instance
  start_export show instance true = do result ← call_start instance; started show instance result

  unfoldable pub invoke :
      (List String → String) → I → String → Bool → Io W (Result ToolError String)
  invoke show instance args_json true = do
    memory ← has_memory instance
    run_export instance args_json memory
  invoke show instance args_json false = do
    start ← has_start instance
    start_export show instance start

  unfoldable pub confined : {N : Type 0} → ToolDefinition N → String → ℕ → String → Confined
  confined definition args_json max_memory_pages sandbox_root = record {
    stdin = as_bytes args_json;
    stdout_capacity = 4 * 1024 * 1024;
    preopens = listed (preopen definition.permissions sandbox_root);
    memories = max_memory_pages;
    fuel = 500_000_000;
  }

  abbrev pub open_dir : Option Preopen → Io W (Result String Unit)
  open_dir none = pure (ok tt)
  open_dir (some p) = preopened_dir p

  unfoldable pub execute_sync :
      {N : Type 0}
      → (List String → String)
      → M
      → ToolDefinition N
      → String
      → ℕ
      → String
      → Io W (Result ToolError String)
  execute_sync show m definition args_json max_memory_pages sandbox_root =
      or_fail (open_dir (preopen definition.permissions sandbox_root)) λ _.
        or_fail (set_fuel 500_000_000) λ _. or_fail add_to_linker_sync λ _.
          or_fail (instantiate (confined definition args_json max_memory_pages sandbox_root) m)
            λ instance. do runs ← has_run instance; invoke show instance args_json runs

  unfoldable pub run :
      {N : Type 0}
      → (List String → String)
      → M
      → ToolDefinition N
      → String
      → ℕ
      → String
      → Io W (Result ToolError String)
  run show m definition args_json max_memory_pages sandbox_root = do
    result ←
        under_timeout definition.timeout_secs
          (execute_sync show m definition args_json max_memory_pages sandbox_root)
    pure (joined definition.timeout_secs result)
