-- ===== src/Tools/ReadFile.antt =====
-- orchestrator/tools/src/read_file/src/main.rs: the tool `read_file`, a WASI program. Its files and its
-- parser are an interface; a byte is a number.
use ai_assistant.Prelude.{
  ℕ, String, ◌<>◌, List, Option, none, some, Io, pure, ◌>>=◌, Result, ok, err,
}

-- The fields as serde finds them; `max_bytes` may be missing.
pub record Args : Type 0 where
  pub path : String
  pub max_bytes : Option ℕ

abbrev pub default_max_bytes : ℕ
default_max_bytes = 4096

pub data Output : Type 0 where
  content : String → Output
  error : String → Output

-- `F` is an open file. An error is its text; `read` is one call, with the size of the buffer, and
-- gives the bytes that were read.
pub record Wasi (W F : Type 0) : Type 0 where
  pub read_stdin : Io W (Result String String)
  pub from_str : String → Result String Args
  pub open_file : String → Io W (Result String F)
  pub read : F → ℕ → Io W (Result String (List ℕ))
  pub from_utf8 : List ℕ → Option String
  pub to_string : Output → Option String
  pub write_stdout : String → Io W Unit

module _ {W F : Type 0} (wasi : Wasi W F) where
  open wasi use {read_stdin, from_str, open_file, read, from_utf8, to_string, write_stdout}

  abbrev decoded : Option String → Output
  decoded none = error "file content is not valid UTF-8"
  decoded (some s) = content s

  abbrev max_bytes_of : Option ℕ → ℕ
  max_bytes_of none = default_max_bytes
  max_bytes_of (some n) = n

  unfoldable read_open : Args → Result String F → Io W Output
  read_open args (err e) = pure (error ("cannot open '" <> (args.path <> ("': " <> e))))
  read_open args (ok file) = do
    buf ← read file (max_bytes_of args.max_bytes)
    pure (elim buf [ ok bytes ↦ decoded (from_utf8 bytes) | err e ↦ error ("read error: " <> e) ])

  unfoldable with_args : Result String Args → Io W Output
  with_args (err e) = pure (error ("invalid args JSON: " <> e))
  with_args (ok args) = do file ← open_file args.path; read_open args file

  unfoldable with_input : Result String String → Io W Output
  with_input (err e) = pure (error ("failed to read stdin: " <> e))
  with_input (ok input) = with_args (from_str input)

  unfoldable run : Io W Output
  run = do input ← read_stdin; with_input input

  abbrev or_failed : Option String → String
  or_failed (some json) = json
  or_failed none = "{\"error\":\"serialisation failed\"}"

  unfoldable main : Io W Unit
  main = do output ← run; write_stdout (or_failed (to_string output))
