-- ===== src/Tools/Definition/Parse/Laws.antt =====
-- What `parse_tool_md` of orchestrator/src/tool_registry/definition.rs accepts, and how
-- `split_frontmatter` takes a file apart.
use ai_assistant.Prelude.{
  String, ◌<>◌, ◌≡◌, refl, ◌∙◌, sym, subst, inl, inr, true, ◌∷◌, Option, none, some, Result, ok,
  err, Char, chars, trim, trim_start, trim_start_matches, strip, split_once, is_whitespace,
  from_chars-chars, chars-append, arith, split_once-append, Option-cases, is_some, and_then,
  map_err, ok_or,
}
use ai_assistant.Errors.{ToolError, parse_error}
use ai_assistant.Tools.Definition.{ToolDefinition, ToolBackend, wasm, native}
use ai_assistant.Tools.Definition.Parse.{
  Paths, Files, split_frontmatter, check_backend, absolute, finish, parse_parts, parse_text,
  parse_tool_md,
}

abbrev newline : Char
newline = "\n"

-- A file that is written as a front matter and a body is taken apart into them, if the front matter
-- has no white space at either end and no line that begins with "---", and the body does not begin
-- with a newline.
pub split_frontmatter-append :
    (frontmatter body : String)
    → trim (chars frontmatter) ≡ chars frontmatter
    → split_once (chars "\n---") (newline ∷ chars frontmatter) ≡ none
    → trim_start_matches b'\n' (chars body) ≡ chars body
    → split_frontmatter ("---\n" <> (frontmatter <> ("\n---\n" <> body))) ≡ some (frontmatter, body)
unfolding split_frontmatter trim trim_start trim_start_matches chars strip is_whitespace
split_frontmatter-append frontmatter body trimmed no_delimiter starts =
    let cut =
      split_once-append newline (chars "---") (newline ∷ chars frontmatter) (newline ∷ chars body)
        (refl, (refl, (refl, tt))) no_delimiter in
    rw
      (
        chars-append "---\n" (frontmatter <> ("\n---\n" <> body)),
        chars-append frontmatter ("\n---\n" <> body),
        chars-append "\n---\n" body,
        cut,
        trimmed,
        starts,
        from_chars-chars frontmatter,
        from_chars-chars body,
      )
      refl

module _ {N : Type 0} where
  abbrev Field : ToolDefinition N → ToolBackend → Type 0
  Field def wasm = is_some def.wasm ≡ true
  Field def native = is_some def.binary ≡ true

  -- The definition has what its backend runs: the path of a module, or the name of a program.
  abbrev pub IsUsable : ToolDefinition N → Type 0
  IsUsable def = Field def def.backend

  -- A usable definition, or an error that names the file.
  abbrev pub IsParsed : String → Result ToolError (ToolDefinition N) → Type 0
  IsParsed path (ok def) = IsUsable def
  IsParsed path (err e) = (source : String) × (e ≡ parse_error path source)

  -- A result of the test of the fields, which gives back the definition itself.
  abbrev Checked :
      String → ToolDefinition N → ToolBackend → Result ToolError (ToolDefinition N) → Type 0
  Checked path def b (ok def') = (def' ≡ def) × Field def b
  Checked path def b (err e) = (source : String) × (e ≡ parse_error path source)

  check_backend-Checked :
      (path : String) (def : ToolDefinition N) (b : ToolBackend)
      → Checked path def b (check_backend path def b)
  unfolding check_backend
  check_backend-Checked path def wasm = elim (Option-cases def.wasm) [
    | inl missing ↦ rw missing (_, refl)
    | inr (file, given) ↦ rw given (refl, refl)
  ]
  check_backend-Checked path def native = elim (Option-cases def.binary) [
    | inl missing ↦ rw missing (_, refl)
    | inr (file, given) ↦ rw given (refl, refl)
  ]

module _ {N : Type 0} (paths : Paths) (from_toml : String → Result String (ToolDefinition N)) where
  is_some-absolute :
      (path : String) (o : Option String) → is_some (absolute paths from_toml path o) ≡ is_some o
  unfolding absolute
  is_some-absolute path none = refl
  is_some-absolute path (some file) = ground arith

  finish-Field :
      (path docs : String) (def : ToolDefinition N) (b : ToolBackend)
      → Field def b
      → Field (finish paths from_toml path docs def) b
  unfolding finish
  finish-Field path docs def wasm h = is_some-absolute path def.wasm ∙ h
  finish-Field path docs def native h = h

  Checked-IsParsed :
      (path docs : String) (def : ToolDefinition N) (r : Result ToolError (ToolDefinition N))
      → Checked path def def.backend r
      → IsParsed path (and_then r λ d. ok (finish paths from_toml path docs d))
  unfolding finish
  Checked-IsParsed path docs def (err e) h = h
  Checked-IsParsed path docs def (ok d) (same, h) =
      subst (λ x. IsUsable (finish paths from_toml path docs x)) (sym same)
        (finish-Field path docs def def.backend h)

  loaded-IsParsed :
      (path docs : String) (r : Result String (ToolDefinition N))
      → IsParsed path (
          and_then (map_err (parse_error path) r) λ def.
            and_then
              (check_backend path def def.backend)
              λ d. ok (finish paths from_toml path docs d))
  loaded-IsParsed path docs (err e) = (e, refl)
  loaded-IsParsed path docs (ok def) =
      Checked-IsParsed path docs def _ (check_backend-Checked path def def.backend)

  split-IsParsed :
      (path : String) (o : Option (String × String))
      → IsParsed path (
          and_then
            (ok_or (parse_error path "Missing or malformed `---` frontmatter delimiters") o)
            (parse_parts paths from_toml path))
  unfolding parse_parts
  split-IsParsed path none = (_, refl)
  split-IsParsed path (some (frontmatter, docs)) = loaded-IsParsed path docs (from_toml frontmatter)

  pub parse_text-IsParsed :
      (path : String) (raw : Result String String)
      → IsParsed path (parse_text paths from_toml path raw)
  unfolding parse_text
  parse_text-IsParsed path (err e) = (e, refl)
  parse_text-IsParsed path (ok raw) = split-IsParsed path (split_frontmatter raw)

  -- Reading a definition gives one that has the field its backend runs, or an error that names the
  -- file.
  pub parse_tool_md-IsParsed :
      {W : Type 0} (files : Files W) (path : String) (w : W)
      → IsParsed path (parse_tool_md paths from_toml files path w).0
  unfolding parse_tool_md
  parse_tool_md-IsParsed files path w = parse_text-IsParsed path _
