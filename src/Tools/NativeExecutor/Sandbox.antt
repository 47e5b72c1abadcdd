-- ===== src/Tools/NativeExecutor/Sandbox.antt =====
-- Which processes orchestrator/src/tool_registry/native_executor.rs starts.
use mathlib.Core.Path.{fun_ext}
use ai_assistant.Prelude.{
  ℕ, String, ◌≡◌, refl, ap, ◌∙◌, inl, inr, Result-cases, Bool, true, false, List, [], ◌∷◌, map,
  Option, none, some, Io, Result, ok, err, contains, is_some,
}
use ai_assistant.Json.{Value, Serde}
use ai_assistant.Tools.Definition.{ToolDefinition}
use ai_assistant.Tools.NativeExecutor.{
  Command, Os, forwarded, read_env, spawned, spawn, stdin_content, build_argv, run_allowed,
  run_binary, run, written, feed, collect, show_output, truncate,
}

-- The program is allowed, it starts in the sandbox's root, and it sees the forwarded variables only.
pub record IsSandboxed (allowed_binaries : List String) (sandbox_root : String) (c : Command)
    : Type 0 where
  pub is_allowed : contains allowed_binaries c.program ≡ true
  pub in_root : c.current_dir ≡ sandbox_root
  pub scrubbed : map (λ e. e.0) c.env ≡ forwarded

-- The same system, but for how it starts a process.
abbrev pub over : {W N P : Type 0} → Os W N P → (Command → Io W (Result String P)) → Os W N P
over os spawn_child = record os { spawn_child = spawn_child }

module _ {W N P : Type 0} (serde : Serde N) (os : Os W N P)
    (spawn_child : Command → Io W (Result String P)) (allowed_binaries : List String)
    (sandbox_root : String)
    (same_child : (c : Command)
      → IsSandboxed allowed_binaries sandbox_root c
      → os.spawn_child c ≡ spawn_child c) where
  abbrev other : Os W N P
  other = over os spawn_child

  names-read_env :
      (names : List String) (w : W) → map (λ e. e.0) (read_env serde os names w).0 ≡ names
  unfolding read_env
  names-read_env [] w = refl
  names-read_env (name ∷ names) w = ap (◌∷◌ name) (names-read_env names _)

  read_env-over :
      (names : List String) (w : W) → read_env serde os names w ≡ read_env serde other names w
  unfolding read_env
  read_env-over [] w = refl
  read_env-over (name ∷ names) w = let ih = read_env-over names (os.var name w).1 in rw ih refl

  spawned-over :
      (binary : String) (max : ℕ) (content : Option String) (r : Result String P) (w : W)
      → spawned serde os binary max content r w ≡ spawned serde other binary max content r w
  unfolding spawned feed written collect show_output truncate
  spawned-over binary max content (err e) w = refl
  spawned-over binary max none (ok child) w = refl
  spawned-over binary max (some text) (ok child) w =
      elim (Result-cases (os.write_all child text w).0) [
        | inl (u, e) ↦ rw e refl
        | inr (x, e) ↦ rw e refl
      ]

  abbrev start : String → List String → Option String → List (String × String) → Command
  start binary argv content env = record {
    program = binary;
    args = argv;
    current_dir = sandbox_root;
    env = env;
    piped_stdin = is_some content;
  }

  spawn-over :
      (binary : String) (argv : List String) (content : Option String) (max : ℕ)
      → contains allowed_binaries binary ≡ true
      → spawn serde os binary argv content sandbox_root max
        ≡ spawn serde other binary argv content sandbox_root max
  unfolding spawn
  spawn-over binary argv content max allowed = fun_ext λ w.
      let (env, w') = read_env serde os forwarded w in
      let c = start binary argv content env in
      let sandboxed : IsSandboxed allowed_binaries sandbox_root c = record {
        is_allowed = allowed;
        in_root = refl;
        scrubbed = names-read_env forwarded w;
      } in
      let (child, w'') = spawn_child c w' in
      rw (same_child c sandboxed) (
        spawned-over binary max content child w''
        ∙ ap
            (λ r.
              let (child, w'') = spawn_child (start binary argv content r.0) r.1 in
              spawned serde other binary max content child w'')
            (read_env-over forwarded w))

  run_allowed-over :
      (definition : ToolDefinition N) (args : Value N) (max : ℕ) (binary : String) (b : Bool)
      (w : W)
      → contains allowed_binaries binary ≡ b
      → run_allowed serde os definition args sandbox_root max binary b w
        ≡ run_allowed serde other definition args sandbox_root max binary b w
  unfolding run_allowed
  run_allowed-over definition args max binary false w e = refl
  run_allowed-over definition args max binary true w e = rw (
      spawn-over binary (build_argv serde definition args)
        (stdin_content serde definition.args args) max e)

  run_binary-over :
      (definition : ToolDefinition N) (args : Value N) (max : ℕ) (binary : Option String) (w : W)
      → run_binary serde os definition args allowed_binaries sandbox_root max binary w
        ≡ run_binary serde other definition args allowed_binaries sandbox_root max binary w
  unfolding run_binary
  run_binary-over definition args max none w = refl
  run_binary-over definition args max (some binary) w =
      run_allowed-over definition args max binary (contains allowed_binaries binary) w refl

  -- A tool runs the same, in its result and its effects, over any two systems that start sandboxed
  -- commands alike: whatever the definition and the arguments are, no program is started that the
  -- list does not allow, or outside the sandbox's root, or with another variable of the environment.
  pub run-over :
      (definition : ToolDefinition N) (args : Value N) (max_output_bytes : ℕ) (w : W)
      → run serde os definition args allowed_binaries sandbox_root max_output_bytes w
        ≡ run serde other definition args allowed_binaries sandbox_root max_output_bytes w
  unfolding run
  run-over definition args max_output_bytes w =
      run_binary-over definition args max_output_bytes definition.binary w
