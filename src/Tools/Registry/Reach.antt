-- ===== src/Tools/Registry/Reach.antt =====
-- The registries that the program can come to: one that `load` made, and what calls leave of it
-- (orchestrator/src/tool_registry/mod.rs).
use ai_assistant.Prelude.{
  String, ◌≡◌, refl, ◌∙◌, subst, inl, inr, Bool, true, false, List, [], ◌∷◌, some, Result, ok, err,
  lookup, insert, lookup-insert, Distinct, Distinct-insert, eq_iff, ◌==◌, arith, Bool-cases,
}
use ai_assistant.Errors.{ToolError}
use ai_assistant.Json.{Serde}
use ai_assistant.Tools.Definition.{ToolDefinition}
use ai_assistant.Tools.Definition.Parse.{Files, Paths}
use ai_assistant.Tools.Definition.Parse.Laws.{IsUsable, IsParsed, parse_tool_md-IsParsed}
use ai_assistant.Tools.NativeExecutor.{Os}
use ai_assistant.Tools.Registry.{Entries, ToolEntry, ToolRegistry, Compiler, cache, execute}
use ai_assistant.Tools.Registry.Rule.{execute-Holds}
use ai_assistant.Tools.Registry.Load.{
  Directories, Settings, register, load_file, parsed, load_files, registry_of, load_entries,
  load_dir, load,
}

-- An entry stands under its definition's name, and the definition can be run.
pub record IsEntry {N M : Type 0} (name : String) (e : ToolEntry N M) : Type 0 where
  pub named : e.definition.name ≡ name
  pub usable : IsUsable e.definition

pub record IsRegistered {N M : Type 0} (entries : Entries N M) : Type 0 where
  pub distinct : Distinct entries
  pub each : (name : String) (e : ToolEntry N M) → lookup name entries ≡ some e → IsEntry name e

module _ {N M : Type 0} where
  nil-IsRegistered : IsRegistered {N = N} {M = M} []
  unfolding lookup
  nil-IsRegistered = record { distinct = tt; each = λ name e h. cc }

  insert-IsRegistered :
      (name : String) (e : ToolEntry N M) (entries : Entries N M)
      → IsEntry name e
      → IsRegistered entries
      → IsRegistered (insert name e entries)
  insert-IsRegistered name e entries h r = record {
    distinct = Distinct-insert name e entries r.distinct;
    each = λ j d found. elim (Bool-cases (name == j)) [
      | inl same ↦
          let here : e ≡ d = ground (arith, lookup-insert name j e entries, same) in
          subst (IsEntry j) here
            (record { named = h.named ∙ (eq_iff name j).0 same; usable = h.usable })
      | inr other ↦ r.each j d (ground (arith, lookup-insert name j e entries, other))
    ];
  }

  register-IsRegistered :
      (path : String) (r : Result ToolError (ToolDefinition N)) (entries : Entries N M)
      → IsParsed path r
      → IsRegistered entries
      → IsRegistered (register r entries)
  unfolding register
  register-IsRegistered path (err e) entries p h = h
  register-IsRegistered path (ok def) entries p h =
      insert-IsRegistered def.name _ entries (record { named = refl; usable = p }) h

module _ {W N M : Type 0} (paths : Paths) (from_toml : String → Result String (ToolDefinition N))
    (files : Files W) where
  parsed-IsRegistered :
      (path : String) (b : Bool) (entries : Entries N M) (w : W)
      → IsRegistered entries
      → IsRegistered (parsed paths from_toml files path b entries w).0
  parsed-IsRegistered path false entries w h = h
  parsed-IsRegistered path true entries w h =
      register-IsRegistered path _ entries (parse_tool_md-IsParsed paths from_toml files path w) h

  load_files-IsRegistered :
      (listed : List (Result String String)) (entries : Entries N M) (w : W)
      → IsRegistered entries
      → IsRegistered (load_files paths from_toml files listed entries w).0
  unfolding load_files load_file
  load_files-IsRegistered [] entries w h = h
  load_files-IsRegistered (err e ∷ rest) entries w h = h
  load_files-IsRegistered (ok path ∷ rest) entries w h =
      load_files-IsRegistered rest _ _ (parsed-IsRegistered path _ entries w h)

module _ {W N : Type 0} (M : Type 0) (paths : Paths)
    (from_toml : String → Result String (ToolDefinition N)) (files : Files W) (dirs : Directories W)
    (settings : Settings) where
  -- A registry that `load` gave, if it gave one.
  abbrev Loads : Result ToolError (ToolRegistry N M) → Type 0
  Loads (err e) = Unit
  Loads (ok registry) = IsRegistered registry.entries

  load_entries-Loads :
      (dir : String) (listed : Result String (List (Result String String))) (w : W)
      → Loads (load_entries {M = M} paths from_toml files dirs settings dir listed w).0
  unfolding load_entries registry_of
  load_entries-Loads dir (err e) w = tt
  load_entries-Loads dir (ok listed) w =
      load_files-IsRegistered paths from_toml files listed [] w nil-IsRegistered

  load_dir-Loads :
      (dir : String) (b : Bool) (w : W)
      → Loads (load_dir {M = M} paths from_toml files dirs settings dir b w).0
  unfolding load_dir registry_of
  load_dir-Loads dir false w = nil-IsRegistered
  load_dir-Loads dir true w = load_entries-Loads dir _ _

  load-Loads :
      (engine : Result String Unit) (dir : String) (w : W)
      → Loads (load {M = M} paths from_toml files dirs settings engine dir w).0
  unfolding load
  load-Loads (err e) dir w = tt
  load-Loads (ok _) dir w = load_dir-Loads dir _ _

  module _ {P : Type 0} (serde : Serde N) (os : Os W N P) (compiler : Compiler W N M) where
    -- A registry as it was loaded, and after any number of calls of tools.
    pub data Reach : ToolRegistry N M → Type 0 where
      loaded :
          {registry : ToolRegistry N M} (engine : Result String Unit) (dir : String) (w : W)
          → (load paths from_toml files dirs settings engine dir w).0 ≡ ok registry
          → Reach registry
      called :
          {registry : ToolRegistry N M} (tool_name args_json : String) (w : W)
          → Reach registry
          → Reach (execute serde os compiler tool_name args_json registry w).0.1

    execute-IsRegistered :
        (tool_name args_json : String) (registry : ToolRegistry N M) (w : W)
        → IsRegistered registry.entries
        → IsRegistered (execute serde os compiler tool_name args_json registry w).0.1.entries
    unfolding cache
    execute-IsRegistered tool_name args_json registry w h =
        execute-Holds serde os compiler tool_name registry (λ r. IsRegistered r.entries) h
          (λ e m found.
            let there = h.each tool_name e found in
            insert-IsRegistered tool_name (record e { wasm_module = some m }) registry.entries
              (record { named = there.named; usable = there.usable }) h)
          args_json w

    -- In a registry as it was loaded, and after any calls of tools, no name stands twice, each
    -- entry stands under its definition's name, and each definition has what its backend runs: the
    -- path of a module, or the name of a program.
    pub Reach-IsRegistered :
        {registry : ToolRegistry N M} → Reach registry → IsRegistered registry.entries
    Reach-IsRegistered (loaded engine dir w e) = subst Loads e (load-Loads engine dir w)
    Reach-IsRegistered (called tool_name args_json w r) =
        execute-IsRegistered tool_name args_json _ w (Reach-IsRegistered r)
