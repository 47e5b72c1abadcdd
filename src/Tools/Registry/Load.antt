-- ===== src/Tools/Registry/Load.antt =====
-- `load` of orchestrator/src/tool_registry/mod.rs. A directory is a list of its entries, each the
-- path of a file or the error of reading the entry.
use ai_assistant.Prelude.{
  ℕ, String, Bool, true, false, List, [], ◌∷◌, Option, none, some, Io, pure, ◌>>=◌, Result, ok, err,
  ◌==◌, insert,
}
use ai_assistant.Errors.{ToolError, parse_error, compile}
use ai_assistant.Tools.Definition.{ToolDefinition}
use ai_assistant.Tools.Definition.Parse.{Files, Paths, parse_tool_md}
use ai_assistant.Tools.Registry.{Entries, ToolRegistry}

pub record Directories (W : Type 0) : Type 0 where
  pub exists : String → Io W Bool
  pub read_dir : String → Io W (Result String (List (Result String String)))

-- A definition replaces one of the same name; a file that is no definition is skipped.
unfoldable pub register :
    {N M : Type 0} → Result ToolError (ToolDefinition N) → Entries N M → Entries N M
register (ok def) entries =
    insert def.name (record { definition = def; wasm_module = none }) entries
register (err e) entries = entries

abbrev pub is_md : Option String → Bool
is_md none = false
is_md (some extension) = extension == "md"

module _ {W N M : Type 0} (paths : Paths) (from_toml : String → Result String (ToolDefinition N))
    (files : Files W) where
  abbrev pub parsed : String → Bool → Entries N M → Io W (Entries N M)
  parsed path false entries = pure entries
  parsed path true entries = do
    def ← parse_tool_md paths from_toml files path
    pure (register def entries)

  -- A file with another extension is passed over.
  unfoldable pub load_file : String → Entries N M → Io W (Entries N M)
  load_file path entries = parsed path (is_md (paths.extension path)) entries

  -- The loop ends at the first entry that cannot be read.
  unfoldable pub load_files : List (Result String String) → Entries N M → Io W (Entries N M)
  load_files [] entries = pure entries
  load_files (err e ∷ rest) entries = pure entries
  load_files (ok path ∷ rest) entries = do
    entries' ← load_file path entries
    load_files rest entries'

-- What `load` is given besides the directory.
pub record Settings : Type 0 where
  pub max_memory_pages : ℕ
  pub sandbox_root : String
  pub allowed_binaries : List String
  pub max_output_bytes : ℕ

unfoldable pub registry_of : {N M : Type 0} → Settings → Entries N M → ToolRegistry N M
registry_of settings entries = record {
  entries = entries;
  max_memory_pages = settings.max_memory_pages;
  sandbox_root = settings.sandbox_root;
  allowed_binaries = settings.allowed_binaries;
  max_output_bytes = settings.max_output_bytes;
}

module _ {W N M : Type 0} (paths : Paths) (from_toml : String → Result String (ToolDefinition N))
    (files : Files W) (dirs : Directories W) (settings : Settings) where
  unfoldable pub load_entries :
      String
      → Result String (List (Result String String))
      → Io W (Result ToolError (ToolRegistry N M))
  load_entries dir (err e) = pure (err (parse_error dir e))
  load_entries dir (ok listed) = do
    entries ← load_files paths from_toml files listed []
    pure (ok (registry_of settings entries))

  unfoldable pub load_dir : String → Bool → Io W (Result ToolError (ToolRegistry N M))
  load_dir dir false = pure (ok (registry_of settings []))
  load_dir dir true = do listed ← dirs.read_dir dir; load_entries dir listed

  -- `engine` is the result of making wasmtime's engine.
  unfoldable pub load : Result String Unit → String → Io W (Result ToolError (ToolRegistry N M))
  load (err e) dir = pure (err (compile e))
  load (ok _) dir = do exists ← dirs.exists dir; load_dir dir exists
