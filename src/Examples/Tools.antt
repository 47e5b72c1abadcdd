-- ===== src/Examples/Tools.antt =====
-- The theorems of `Tools.NativeExecutor` and `Tools.Registry`.
use ai_assistant.Prelude.{
  ap, sym, Bool, true, false, ℕ, suc, ◌+◌, String, ◌≡◌, refl, List, [], ◌∷◌, Option, none, some,
  pos, Io, Result, ok, err, contains, lookup,
}
use ai_assistant.Json.{Value, object, string, field, end, get}
use ai_assistant.Tools.Definition.{ToolDefinition, wasm}
use ai_assistant.Tools.Definition.Validate.{validate_args, check_args}
use ai_assistant.Tools.NativeExecutor.{Command, Os, build_argv, run}
use ai_assistant.Tools.NativeExecutor.Argv.{Arranged, build_argv-eq, build_argv-Arranged}
use ai_assistant.Tools.NativeExecutor.Sandbox.{IsSandboxed, run-over}
use ai_assistant.Tools.NativeExecutor.Sandbox
use ai_assistant.Tools.Registry.{
  ToolEntry, ToolRegistry, Compiler, list_schemas, execute, execute_entry, validated, dispatch,
  ensure_module, compile_file, loaded, compiled, run_compiled,
}
use ai_assistant.Tools.Registry.Laws.{list_schemas-execute}
use ai_assistant.Tools.Registry.Cached.{IsCached, execute-IsCached}
use ai_assistant.Tools.Registry.Cache.{execute-over}
use ai_assistant.Tools.Registry.Cache
use ai_assistant.Samples.{serde, arg, tool, path_args}

-- `cat` with a path and a text that is piped to it.
abbrev cat : ToolDefinition ℕ
cat = tool "cat" (arg "path" true none ∷ record (arg "text" false none) { is_stdin = true } ∷ [])

abbrev secret : Value ℕ
secret = object (field "path" (string "a.txt") (field "text" (string "secret") end))

build_argv-eq_example : build_argv serde cat secret ≡ build_argv serde cat (object path_args)
unfolding get
build_argv-eq_example =
    build_argv-eq serde cat (field "path" (string "a.txt") (field "text" (string "secret") end))
      path_args (refl, (tt, tt))

build_argv-Arranged_example : Arranged serde cat secret (build_argv serde cat secret)
build_argv-Arranged_example = build_argv-Arranged serde cat secret

abbrev pub os : Os ℕ ℕ ℕ
os = record {
  var = λ name w. (some "C", suc w);
  spawn_child = λ c w. (ok 1, suc w);
  write_all = λ child text w. (ok tt, suc w);
  wait_with_output =
      λ child w. (ok (record { stdout = 104 ∷ 105 ∷ []; stderr = []; code = some (pos 0) }), suc w);
  timeout = λ secs action w. let (r, w') = action w in (some r, w');
  from_utf8_lossy = λ bytes. "hi";
  len = λ text. 2;
  from_i32 = λ c. 0;
}

-- A system in which any other program does harm.
abbrev start : Bool → Io ℕ (Result String ℕ)
start true w = (ok 1, suc w)
start false w = (ok 6, w + 100)

abbrev pub spawn_child : Command → Io ℕ (Result String ℕ)
spawn_child c = start (contains ("cat" ∷ []) c.program)

pub same_program :
    (sandbox_root : String) (c : Command)
    → IsSandboxed ("cat" ∷ []) sandbox_root c
    → os.spawn_child c ≡ spawn_child c
same_program sandbox_root c s = ap start (sym s.is_allowed)

run-over_example :
    run serde os cat secret ("cat" ∷ []) "/work" 100 3
    ≡ run serde (Sandbox.over os spawn_child) cat secret ("cat" ∷ []) "/work" 100 3
run-over_example =
    run-over serde os spawn_child ("cat" ∷ []) "/work" (same_program "/work") cat secret 100 3

abbrev pub compiler : Compiler ℕ ℕ ℕ
compiler = record {
  read = λ path w. (ok (0 ∷ []), suc w);
  new_module = λ bytes. ok 7;
  run_module = λ m def args pages root w. (ok "3", suc w);
}

abbrev sum : Option ℕ → ToolEntry ℕ ℕ
sum m = record {
  definition = record (tool "sum" []) { backend = wasm; wasm = some "sum.wasm" };
  wasm_module = m;
}

abbrev pub registry : Option ℕ → ToolRegistry ℕ ℕ
registry m = record {
  entries = ("cat", record { definition = cat; wasm_module = none }) ∷ ("sum", sum m) ∷ [];
  max_memory_pages = 16;
  sandbox_root = "/work";
  allowed_binaries = "cat" ∷ [];
  max_output_bytes = 100;
}

list_schemas-execute_example :
    list_schemas (execute serde os compiler "sum" "{}" (registry none) 3).0.1
    ≡ list_schemas (registry none)
list_schemas-execute_example = list_schemas-execute serde os compiler "sum" "{}" (registry none) 3

ran : (execute serde os compiler "sum" "{}" (registry none) 3).0.0 ≡ ok "3"
unfolding execute execute_entry lookup validated validate_args check_args dispatch run_compiled
    ensure_module compile_file loaded compiled
ran = refl

execute-IsCached_example :
    IsCached serde os compiler "sum" (execute serde os compiler "sum" "{}" (registry none) 3).0.1
unfolding lookup
execute-IsCached_example =
    execute-IsCached serde os compiler "sum" "{}" (sum none) (registry none) 3 "3" refl refl ran

-- The file is gone.
abbrev gone : String → Io ℕ (Result String (List ℕ))
gone path w = (err "not there", w + 50)

abbrev broken : List ℕ → Result String ℕ
broken bytes = err "no module"

execute-over_example :
    execute serde os compiler "sum" "{}" (registry (some 7)) 3
    ≡ execute serde os (Cache.over compiler gone broken) "sum" "{}" (registry (some 7)) 3
unfolding lookup
execute-over_example =
    execute-over serde os compiler gone broken (sum (some 7)) 7 refl "sum" "{}" (registry (some 7))
      3 refl
