-- ===== src/Examples/Load.antt =====
-- The theorems of `Tools.Definition.Parse` and `Tools.Registry.Reach`.
use ai_assistant.Prelude.{
  ℕ, suc, String, ◌<>◌, ◌≡◌, refl, true, [], ◌∷◌, none, some, Result, ok, err, insert, from_chars,
  chars, strip, split_once, trim, trim_start, trim_start_matches, trim_end, is_whitespace,
}
use ai_assistant.Tools.Definition.{ToolDefinition}
use ai_assistant.Tools.Definition.Parse.{
  Files, Paths, split_frontmatter, parse_tool_md, parse_text, parse_parts, check_backend, absolute,
  finish,
}
use ai_assistant.Tools.Definition.Parse.Laws.{
  split_frontmatter-append, IsParsed, parse_tool_md-IsParsed,
}
use ai_assistant.Tools.Registry.{ToolRegistry, execute}
use ai_assistant.Tools.Registry.Load.{
  Directories, Settings, load, load_dir, load_entries, registry_of, load_files, load_file, register,
}
use ai_assistant.Tools.Registry.Reach.{loaded, called, IsRegistered, Reach-IsRegistered}
use ai_assistant.Examples.Tools.{os, compiler}
use ai_assistant.Samples.{serde, tool}

split_frontmatter-append_example :
    split_frontmatter ("---\n" <> ("name = \"cat\"" <> ("\n---\n" <> "# cat\n")))
    ≡ some ("name = \"cat\"", "# cat\n")
unfolding chars strip split_once trim trim_start trim_start_matches trim_end is_whitespace
split_frontmatter-append_example =
    split_frontmatter-append "name = \"cat\"" "# cat\n" refl refl refl

abbrev pub paths : Paths
paths = record {
  is_relative = λ path. true;
  parent = λ path. some "tools";
  join = λ base path. base <> ("/" <> path);
  extension = λ path. some "md";
}

abbrev pub from_toml : String → Result String (ToolDefinition ℕ)
from_toml text = ok (tool "cat" [])

abbrev pub files : Files ℕ
files = record { read_to_string = λ path w. (ok "---\nname = \"cat\"\n---\n# cat\n", suc w) }

abbrev pub dirs : Directories ℕ
dirs = record {
  exists = λ dir w. (true, suc w);
  read_dir = λ dir w. (ok (ok "tools/cat.md" ∷ err "unreadable" ∷ []), suc w);
}

abbrev given : Settings
given = record {
  max_memory_pages = 16;
  sandbox_root = "/work";
  allowed_binaries = "cat" ∷ [];
  max_output_bytes = 100;
}

parse_tool_md-IsParsed_example :
    IsParsed "tools/cat.md" (parse_tool_md paths from_toml files "tools/cat.md" 3).0
parse_tool_md-IsParsed_example = parse_tool_md-IsParsed paths from_toml files "tools/cat.md" 3

abbrev registry : ToolRegistry ℕ ℕ
registry = record {
  entries =
      (
        "cat",
        record { definition = record (tool "cat" []) { docs = "# cat\n" }; wasm_module = none },
      )
      ∷ [];
  max_memory_pages = 16;
  sandbox_root = "/work";
  allowed_binaries = "cat" ∷ [];
  max_output_bytes = 100;
}

loads : (load paths from_toml files dirs given (ok tt) "tools" 0).0 ≡ ok registry
unfolding load load_dir load_entries registry_of load_files load_file register parse_tool_md
    parse_text split_frontmatter strip chars trim_start is_whitespace split_once parse_parts
    check_backend insert from_chars trim trim_end trim_start_matches absolute finish
loads = refl

Reach-IsRegistered_example :
    IsRegistered (execute serde os compiler "cat" "{}" registry 9).0.1.entries
Reach-IsRegistered_example =
    Reach-IsRegistered ℕ paths from_toml files dirs given serde os compiler
      (called "cat" "{}" 9 (loaded (ok tt) "tools" 0 loads))
