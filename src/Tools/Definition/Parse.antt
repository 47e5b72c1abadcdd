-- ===== src/Tools/Definition/Parse.antt =====
-- `parse_tool_md` and `split_frontmatter` of orchestrator/src/tool_registry/definition.rs. The file
-- system, the rules for paths and the TOML parser are an interface.
pub mod Laws
use ai_assistant.Prelude.{
  ℕ, String, Bool, true, false, Option, none, some, Io, pure, ◌>>=◌, Result, ok, err, and_then,
  ok_or, map_err, Chars, chars, from_chars, trim, trim_start, trim_start_matches, strip, split_once,
  if◌then◌else◌,
}
use ai_assistant.Errors.{ToolError, parse_error}
use ai_assistant.Tools.Definition.{ToolDefinition, ToolBackend, wasm, native}

-- An error is its text.
pub record Files (W : Type 0) : Type 0 where
  pub read_to_string : String → Io W (Result String String)

pub record Paths : Type 0 where
  pub is_relative : String → Bool
  pub parent : String → Option String
  pub join : String → String → String
  pub extension : String → Option String

-- What follows the closing delimiter, without the newlines before it.
abbrev parts : Option (Chars × Chars) → Option (String × String)
parts none = none
parts (some (fm, rest)) = some (from_chars (trim fm), from_chars (trim_start_matches b'\n' rest))

abbrev opened : Option Chars → Option (String × String)
opened none = none
opened (some src) = parts (split_once (chars "\n---") src)

-- `---\n<toml>\n---\n<body>` as `(toml, body)`.
unfoldable pub split_frontmatter : String → Option (String × String)
split_frontmatter src = opened (strip (chars "---") (trim_start (chars src)))

module _ {N : Type 0} where
  -- The field that the backend needs is there.
  unfoldable pub check_backend :
      String → ToolDefinition N → ToolBackend → Result ToolError (ToolDefinition N)
  check_backend path def wasm = elim def.wasm [
    | none ↦ err (parse_error path "`wasm` field is required when backend = \"wasm\"")
    | some file ↦ ok def
  ]
  check_backend path def native = elim def.binary [
    | none ↦ err (parse_error path "`binary` field is required when backend = \"native\"")
    | some file ↦ ok def
  ]

module _ {N : Type 0} (paths : Paths) (from_toml : String → Result String (ToolDefinition N)) where
  open paths use {is_relative, parent, join}

  abbrev base_of : Option String → String
  base_of none = "."
  base_of (some dir) = dir

  -- The module's path, relative to the directory of the file.
  unfoldable pub absolute : String → Option String → Option String
  absolute path none = none
  absolute path (some file) =
      if is_relative file then some (join (base_of (parent path)) file) else some file

  unfoldable pub finish : String → String → ToolDefinition N → ToolDefinition N
  finish path docs def = record def { wasm = absolute path def.wasm; docs = docs }

  unfoldable pub parse_parts : String → String × String → Result ToolError (ToolDefinition N)
  parse_parts path (frontmatter, docs) =
      and_then (map_err (parse_error path) (from_toml frontmatter)) λ def.
        and_then (check_backend path def def.backend) λ checked. ok (finish path docs checked)

  unfoldable pub parse_text : String → Result String String → Result ToolError (ToolDefinition N)
  parse_text path (err e) = err (parse_error path e)
  parse_text path (ok raw) =
      and_then
        (ok_or (parse_error path "Missing or malformed `---` frontmatter delimiters")
          (split_frontmatter raw))
        (parse_parts path)

  unfoldable pub parse_tool_md :
      {W : Type 0} → Files W → String → Io W (Result ToolError (ToolDefinition N))
  parse_tool_md files path = do raw ← files.read_to_string path; pure (parse_text path raw)
