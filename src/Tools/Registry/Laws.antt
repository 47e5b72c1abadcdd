-- ===== src/Tools/Registry/Laws.antt =====
-- What a call leaves of the registry (orchestrator/src/tool_registry/mod.rs).
use ai_assistant.Prelude.{
  String, ◌≡◌, refl, ap, sym, ◌∙◌, inl, inr, List, [], ◌∷◌, map, some, lookup, insert, Bool-cases,
  ◌==◌,
}
use ai_assistant.Json.{Serde}
use ai_assistant.Tools.Definition.{ToolDefinition}
use ai_assistant.Tools.NativeExecutor.{Os}
use ai_assistant.Tools.Registry.Rule.{execute-Holds}
use ai_assistant.Tools.Registry.{ToolEntry, ToolRegistry, Compiler, list_schemas, cache, execute}

module _ {W N M P : Type 0} (serde : Serde N) (os : Os W N P) (compiler : Compiler W N M) where
  abbrev schemas_of : List (String × ToolEntry N M) → List (ToolDefinition N)
  schemas_of entries = map (λ e. e.1.definition) entries

  -- A new entry of a name with the old definition changes no definition.
  insert-schemas :
      (name : String) (e e' : ToolEntry N M) (entries : List (String × ToolEntry N M))
      → lookup name entries ≡ some e
      → e'.definition ≡ e.definition
      → schemas_of (insert name e' entries) ≡ schemas_of entries
  unfolding lookup insert
  insert-schemas name e e' [] found same = cc
  insert-schemas name e e' ((j, d) ∷ rest) found same = elim (Bool-cases (j == name)) [
    | inl hit ↦
        let found' : some d ≡ some e = rw hit at found in
        let here : d ≡ e = cc in
        rw hit (ap (λ x. x ∷ schemas_of rest) (same ∙ sym (ap (λ x. x.definition) here)))
    | inr miss ↦
        let found' : lookup name rest ≡ some e = rw miss at found in
        rw miss (ap (◌∷◌ d.definition) (insert-schemas name e e' rest found' same))
  ]

  abbrev Kept : ToolRegistry N M → ToolRegistry N M → Type 0
  Kept registry registry' = list_schemas registry' ≡ list_schemas registry

  -- A call of a tool, whatever its result, leaves the list of definitions as it was: the prompt of a
  -- later session shows the same tools.
  pub list_schemas-execute :
      (tool_name args_json : String) (registry : ToolRegistry N M) (w : W)
      → list_schemas (execute serde os compiler tool_name args_json registry w).0.1
        ≡ list_schemas registry
  unfolding cache list_schemas
  list_schemas-execute tool_name args_json registry w =
      execute-Holds serde os compiler tool_name registry (Kept registry) refl
        (λ e m found.
          insert-schemas tool_name e (record e { wasm_module = some m }) registry.entries found
            refl)
        args_json w
