-- ===== src/Tools/NativeExecutor/Argv.antt =====
-- The arguments of a program (`build_argv` of
-- orchestrator/src/tool_registry/native_executor.rs).
use ai_assistant.Prelude.{
  String, ◌<>◌, ◌≡◌, ◌≢◌, ◌⊎◌, Bool, subst, sym, refl, inl, inr, true, false, List, [], ◌∷◌, ◌++◌,
  Option, none, some, All, arith, if◌then◌else◌, Bool-cases,
}
use ai_assistant.Json.{Value, null, bool, number, string, array, object, Fields, Serde, get}
use ai_assistant.Tools.Definition.{ArgDef, ToolDefinition}
use ai_assistant.Tools.NativeExecutor.{
  json_value_to_string, push_value, push_flag, positionals, flags, build_argv,
}

module _ {N : Type 0} (serde : Serde N) where
  -- The objects hold the same value for an argument that is not marked for standard input.
  abbrev pub AgreeOn : Fields N → Fields N → ArgDef N → Type 0
  AgreeOn obj obj' arg = if arg.is_stdin then Unit else (get arg.name obj ≡ get arg.name obj')

  positionals-eq :
      (args : List (ArgDef N)) (obj obj' : Fields N)
      → All (AgreeOn obj obj') args
      → positionals serde args obj ≡ positionals serde args obj'
  unfolding positionals
  positionals-eq [] obj obj' h = refl
  positionals-eq (arg ∷ rest) obj obj' (h, more) = elim (Bool-cases arg.is_stdin) [
    | inl piped ↦ ground (arith, positionals-eq rest obj obj' more, piped)
    | inr plain ↦
        let same : get arg.name obj ≡ get arg.name obj' = rw plain at h in
        ground (arith, positionals-eq rest obj obj' more, plain, same)
  ]

  flags-eq :
      (args : List (ArgDef N)) (obj obj' : Fields N)
      → All (AgreeOn obj obj') args
      → flags serde args obj ≡ flags serde args obj'
  unfolding flags
  flags-eq [] obj obj' h = refl
  flags-eq (arg ∷ rest) obj obj' (h, more) = elim (Bool-cases arg.is_stdin) [
    | inl piped ↦ ground (arith, flags-eq rest obj obj' more, piped)
    | inr plain ↦
        let same : get arg.name obj ≡ get arg.name obj' = rw plain at h in
        ground (arith, flags-eq rest obj obj' more, plain, same)
  ]

  -- The program's arguments are the same for two objects that differ only in what is marked for
  -- standard input, or in what the definition does not declare: no such value reaches them.
  pub build_argv-eq :
      (definition : ToolDefinition N) (obj obj' : Fields N)
      → All (AgreeOn obj obj') definition.args
      → build_argv serde definition (object obj) ≡ build_argv serde definition (object obj')
  unfolding build_argv
  build_argv-eq definition obj obj' h =
      rw (positionals-eq definition.args obj obj' h, flags-eq definition.args obj obj' h)

  -- The text of a value: that of a string as it is, that of another one as JSON.
  pub data Text : Value N → String → Type 0 where
    as_is : (s : String) → Text (string s) s
    printed : (v : Value N) → ((s : String) → v ≢ string s) → Text v (serde.to_string v)

  -- What the arguments of a definition come to, in their order, for a program that is given the
  -- object `obj`: each one by position or as an option, none that is marked for standard input.
  module _ (obj : Fields N) where
    pub data Positionals : List (ArgDef N) → List String → Type 0 where
      no_more : Positionals [] []
      passed :
          {arg : ArgDef N} {rest : List (ArgDef N)} {out : List String} (v : Value N)
          (shown : String)
          → arg.positional ≡ true
          → arg.is_stdin ≡ false
          → get arg.name obj ≡ some v
          → v ≢ null
          → Text v shown
          → Positionals rest out
          → Positionals (arg ∷ rest) (shown ∷ out)
      absent :
          {arg : ArgDef N} {rest : List (ArgDef N)} {out : List String}
          → (get arg.name obj ≡ none) ⊎ (get arg.name obj ≡ some null)
          → Positionals rest out
          → Positionals (arg ∷ rest) out
      elsewhere :
          {arg : ArgDef N} {rest : List (ArgDef N)} {out : List String}
          → (arg.positional ≡ false) ⊎ (arg.is_stdin ≡ true)
          → Positionals rest out
          → Positionals (arg ∷ rest) out

    pub data Options : List (ArgDef N) → List String → Type 0 where
      no_more : Options [] []
      switched :
          {arg : ArgDef N} {rest : List (ArgDef N)} {out : List String}
          → arg.positional ≡ false
          → arg.is_stdin ≡ false
          → get arg.name obj ≡ some (bool true)
          → Options rest out
          → Options (arg ∷ rest) (("--" <> arg.name) ∷ out)
      assigned :
          {arg : ArgDef N} {rest : List (ArgDef N)} {out : List String} (v : Value N)
          (shown : String)
          → arg.positional ≡ false
          → arg.is_stdin ≡ false
          → get arg.name obj ≡ some v
          → v ≢ null
          → ((b : Bool) → v ≢ bool b)
          → Text v shown
          → Options rest out
          → Options (arg ∷ rest) (("--" <> arg.name <> "=" <> shown) ∷ out)
      absent :
          {arg : ArgDef N} {rest : List (ArgDef N)} {out : List String}
          → (get arg.name obj ≡ none)
            ⊎ ((get arg.name obj ≡ some null) ⊎ (get arg.name obj ≡ some (bool false)))
          → Options rest out
          → Options (arg ∷ rest) out
      elsewhere :
          {arg : ArgDef N} {rest : List (ArgDef N)} {out : List String}
          → (arg.positional ≡ true) ⊎ (arg.is_stdin ≡ true)
          → Options rest out
          → Options (arg ∷ rest) out

    push_value-Positionals :
        (arg : ArgDef N) (rest : List (ArgDef N)) (out : List String) (o : Option (Value N))
        → get arg.name obj ≡ o
        → arg.positional ≡ true
        → arg.is_stdin ≡ false
        → Positionals rest out
        → Positionals (arg ∷ rest) (push_value serde o ++ out)
    unfolding push_value json_value_to_string
    push_value-Positionals arg rest out none e p q more = absent (inl e) more
    push_value-Positionals arg rest out (some null) e p q more = absent (inr e) more
    push_value-Positionals arg rest out (some (string s)) e p q more =
        passed (string s) s p q e (λ h. cc) (as_is s) more
    push_value-Positionals arg rest out (some (bool b)) e p q more =
        passed (bool b) _ p q e (λ h. cc) (printed (bool b) (λ s h. cc)) more
    push_value-Positionals arg rest out (some (number n)) e p q more =
        passed (number n) _ p q e (λ h. cc) (printed (number n) (λ s h. cc)) more
    push_value-Positionals arg rest out (some (array xs)) e p q more =
        passed (array xs) _ p q e (λ h. cc) (printed (array xs) (λ s h. cc)) more
    push_value-Positionals arg rest out (some (object fs)) e p q more =
        passed (object fs) _ p q e (λ h. cc) (printed (object fs) (λ s h. cc)) more

    push_flag-Options :
        (arg : ArgDef N) (rest : List (ArgDef N)) (out : List String) (o : Option (Value N))
        → get arg.name obj ≡ o
        → arg.positional ≡ false
        → arg.is_stdin ≡ false
        → Options rest out
        → Options (arg ∷ rest) (push_flag serde arg.name o ++ out)
    unfolding push_flag json_value_to_string
    push_flag-Options arg rest out none e p q more = absent (inl e) more
    push_flag-Options arg rest out (some null) e p q more = absent (inr (inl e)) more
    push_flag-Options arg rest out (some (bool true)) e p q more = switched p q e more
    push_flag-Options arg rest out (some (bool false)) e p q more = absent (inr (inr e)) more
    push_flag-Options arg rest out (some (string s)) e p q more =
        assigned (string s) s p q e (λ h. cc) (λ b h. cc) (as_is s) more
    push_flag-Options arg rest out (some (number n)) e p q more =
        assigned (number n) _ p q e (λ h. cc) (λ b h. cc) (printed (number n) (λ s h. cc)) more
    push_flag-Options arg rest out (some (array xs)) e p q more =
        assigned (array xs) _ p q e (λ h. cc) (λ b h. cc) (printed (array xs) (λ s h. cc)) more
    push_flag-Options arg rest out (some (object fs)) e p q more =
        assigned (object fs) _ p q e (λ h. cc) (λ b h. cc) (printed (object fs) (λ s h. cc)) more

    positionals-Positionals :
        (args : List (ArgDef N)) → Positionals args (positionals serde args obj)
    unfolding positionals
    positionals-Positionals [] = no_more
    positionals-Positionals (arg ∷ rest) =
        let more = positionals-Positionals rest in
        let out = positionals serde rest obj in
        let whole = λ (xs : List String). Positionals (arg ∷ rest) xs in
        elim (Bool-cases arg.positional) [
          | inr named ↦
              let skipped : positionals serde (arg ∷ rest) obj ≡ out = rw named refl in
              subst whole (sym skipped) (elsewhere (inl named) more)
          | inl placed ↦ elim (Bool-cases arg.is_stdin) [
            | inl piped ↦
                let skipped : positionals serde (arg ∷ rest) obj ≡ out = rw (placed, piped) refl in
                subst whole (sym skipped) (elsewhere (inr piped) more)
            | inr plain ↦
                let taken : positionals serde (arg ∷ rest) obj
                    ≡ push_value serde (get arg.name obj) ++ out =
                  rw (placed, plain) refl in
                subst whole (sym taken)
                  (push_value-Positionals arg rest out _ refl placed plain more)
          ]
        ]

    flags-Options : (args : List (ArgDef N)) → Options args (flags serde args obj)
    unfolding flags
    flags-Options [] = no_more
    flags-Options (arg ∷ rest) =
        let more = flags-Options rest in
        let out = flags serde rest obj in
        let whole = λ (xs : List String). Options (arg ∷ rest) xs in
        elim (Bool-cases arg.positional) [
          | inl placed ↦
              let skipped : flags serde (arg ∷ rest) obj ≡ out = rw placed refl in
              subst whole (sym skipped) (elsewhere (inl placed) more)
          | inr named ↦ elim (Bool-cases arg.is_stdin) [
            | inl piped ↦
                let skipped : flags serde (arg ∷ rest) obj ≡ out = rw (named, piped) refl in
                subst whole (sym skipped) (elsewhere (inr piped) more)
            | inr plain ↦
                let taken : flags serde (arg ∷ rest) obj
                    ≡ push_flag serde arg.name (get arg.name obj) ++ out =
                  rw (named, plain) refl in
                subst whole (sym taken) (push_flag-Options arg rest out _ refl named plain more)
          ]
        ]

  -- The arguments of a program that is given the value.
  pub data Arranged (definition : ToolDefinition N) : Value N → List String → Type 0 where
    of_object :
        (obj : Fields N) (values options : List String)
        → Positionals obj definition.args values
        → Options obj definition.args options
        → Arranged definition (object obj) (definition.command_args ++ values ++ options)
    of_other :
        {v : Value N}
        → ((obj : Fields N) → v ≢ object obj)
        → Arranged definition v definition.command_args

  -- The program's arguments are the fixed ones of the definition, then the texts of the values that
  -- are passed by position, then the options, each of the two in the order of the definition. An
  -- option is "--name" for a true one and "--name=text" for a value, and nothing is passed for an
  -- argument that is missing, null, false as an option, or marked for standard input. For a value
  -- that is no object there are the fixed ones alone.
  pub build_argv-Arranged :
      (definition : ToolDefinition N) (args : Value N)
      → Arranged definition args (build_argv serde definition args)
  unfolding build_argv
  build_argv-Arranged definition (object obj) =
      of_object obj _ _ (positionals-Positionals obj definition.args)
        (flags-Options obj definition.args)
  build_argv-Arranged definition null = of_other (λ obj h. cc)
  build_argv-Arranged definition (bool b) = of_other (λ obj h. cc)
  build_argv-Arranged definition (number n) = of_other (λ obj h. cc)
  build_argv-Arranged definition (string s) = of_other (λ obj h. cc)
  build_argv-Arranged definition (array xs) = of_other (λ obj h. cc)
