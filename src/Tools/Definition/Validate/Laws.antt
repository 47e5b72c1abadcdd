-- ===== src/Tools/Definition/Validate/Laws.antt =====
-- What `validate_args` of orchestrator/src/tool_registry/definition.rs accepts, and what it returns.
use ai_assistant.Prelude.{
  String, ◌≡◌, inl, inr, refl, Bool, true, List, [], ◌∷◌, some, Result, ok, err, and_then-eq-ok,
  is_some, All, arith, eq_iff, Option-cases,
}
use ai_assistant.Json.{
  Value, null, bool, number, string, array, object, Fields, Serde, get, get-insert,
}
use ai_assistant.Tools.Definition.{ArgDef, ToolDefinition}
use ai_assistant.Tools.Definition.Validate.{
  is_string, is_integer, is_boolean, is_object, type_ok, check_arg, check_args, validate_args,
  parsed, as_object,
}

module _ {N : Type 0} (serde : Serde N) where
  -- What was supplied stays as it was.
  abbrev pub Extends : Fields N → Fields N → Type 0
  Extends fs fs' = (k : String) (v : Value N) → get k fs ≡ some v → get k fs' ≡ some v

  -- What the type of an argument says of a value; another type says nothing.
  pub record HasType (ty : String) (v : Value N) : Type 0 where
    pub as_string : ty ≡ "string" → (s : String) × (v ≡ string s)
    pub as_integer : ty ≡ "integer" → (n : N) × (v ≡ number n) × (serde.is_i64 n ≡ true)
    pub as_boolean : ty ≡ "boolean" → (b : Bool) × (v ≡ bool b)
    pub as_object : ty ≡ "object" → (fields : Fields N) × (v ≡ object fields)

  string_of : (v : Value N) → is_string v ≡ true → (s : String) × (v ≡ string s)
  string_of (string s) e = (s, refl)
  string_of null e = cc
  string_of (bool b) e = cc
  string_of (number n) e = cc
  string_of (array xs) e = cc
  string_of (object fs) e = cc

  integer_of :
      (v : Value N) → is_integer serde v ≡ true → (n : N) × (v ≡ number n) × (serde.is_i64 n ≡ true)
  integer_of (number n) e = (n, refl, e)
  integer_of null e = cc
  integer_of (bool b) e = cc
  integer_of (string s) e = cc
  integer_of (array xs) e = cc
  integer_of (object fs) e = cc

  boolean_of : (v : Value N) → is_boolean v ≡ true → (b : Bool) × (v ≡ bool b)
  boolean_of (bool b) e = (b, refl)
  boolean_of null e = cc
  boolean_of (number n) e = cc
  boolean_of (string s) e = cc
  boolean_of (array xs) e = cc
  boolean_of (object fs) e = cc

  object_of : (v : Value N) → is_object v ≡ true → (fields : Fields N) × (v ≡ object fields)
  object_of (object fs) e = (fs, refl)
  object_of null e = cc
  object_of (bool b) e = cc
  object_of (number n) e = cc
  object_of (string s) e = cc
  object_of (array xs) e = cc

  type_ok-HasType : (ty : String) (v : Value N) → type_ok serde ty v ≡ true → HasType ty v
  unfolding type_ok
  type_ok-HasType ty v e = record {
    as_string = λ h. let e' : is_string v ≡ true = rw h at e in string_of v e';
    as_integer = λ h. let e' : is_integer serde v ≡ true = rw h at e in integer_of v e';
    as_boolean = λ h. let e' : is_boolean v ≡ true = rw h at e in boolean_of v e';
    as_object = λ h. let e' : is_object v ≡ true = rw h at e in object_of v e';
  }

  -- What a declared argument can rely on when the object `fs` was accepted as `fs'`.
  pub record Settled (fs fs' : Fields N) (arg : ArgDef N) : Type 0 where
    pub present : arg.required ≡ true → is_some (get arg.name fs') ≡ true
    pub typed : (v : Value N) → get arg.name fs ≡ some v → HasType arg.ty v
    pub defaulted : is_some arg.default ≡ true → is_some (get arg.name fs') ≡ true

  check_arg-Extends :
      (arg : ArgDef N) (fs fs' : Fields N)
      → check_arg serde arg fs (get arg.name fs) ≡ ok fs'
      → Extends fs fs'
  unfolding check_arg
  check_arg-Extends arg fs fs' e k v h = elim (Option-cases arg.default) [
    | inl no_default ↦ ground (arith)
    | inr (d, given) ↦ ground (arith, get-insert arg.name k d fs, eq_iff arg.name k)
  ]

  Settled-check_arg :
      (arg : ArgDef N) (fs fs' : Fields N)
      → check_arg serde arg fs (get arg.name fs) ≡ ok fs'
      → Settled fs fs' arg
  unfolding check_arg
  Settled-check_arg arg fs fs' e = record {
    present = λ r. ground (arith);
    typed = λ v h. type_ok-HasType arg.ty v (ground (arith));
    defaulted = λ g. elim (Option-cases arg.default) [
      | inl no_default ↦ cc
      | inr (d, given) ↦ ground (arith, get-insert arg.name arg.name d fs, eq_iff arg.name arg.name)
    ];
  }

  is_some-Extends :
      (fs fs' : Fields N) (k : String)
      → Extends fs fs'
      → is_some (get k fs) ≡ true
      → is_some (get k fs') ≡ true
  is_some-Extends fs fs' k kept h = elim (Option-cases (get k fs)) [
    | inl missing ↦ cc
    | inr (v, found) ↦ rw (kept k v found) refl
  ]

  Settled-later :
      (fs mid fs' : Fields N) (arg : ArgDef N)
      → Extends mid fs'
      → Settled fs mid arg
      → Settled fs fs' arg
  Settled-later fs mid fs' arg kept s = record {
    present = λ r. is_some-Extends mid fs' arg.name kept (s.present r);
    typed = s.typed;
    defaulted = λ r. is_some-Extends mid fs' arg.name kept (s.defaulted r);
  }

  Settled-earlier :
      (fs mid fs' : Fields N)
      → Extends fs mid
      → (args : List (ArgDef N)) → All (Settled mid fs') args
      → All (Settled fs fs') args
  Settled-earlier fs mid fs' kept [] s = tt
  Settled-earlier fs mid fs' kept (arg ∷ rest) (s, more) = (
    record {
      present = s.present;
      typed = λ v h. s.typed v (kept arg.name v h);
      defaulted = s.defaulted;
    },
    Settled-earlier fs mid fs' kept rest more,
  )

  check_args-Settled :
      (args : List (ArgDef N)) (fs fs' : Fields N)
      → check_args serde args fs ≡ ok fs'
      → Extends fs fs' × All (Settled fs fs') args
  unfolding check_args
  check_args-Settled [] fs fs' e = ((λ k v h. cc), tt)
  check_args-Settled (arg ∷ rest) fs fs' e =
      let (mid, here, later) = and_then-eq-ok (check_arg serde arg fs (get arg.name fs)) _ e in
      let (kept', settled') = check_args-Settled rest mid fs' later in
      let kept = check_arg-Extends arg fs mid here in
      (
        (λ k v h. kept' k v (kept k v h)),
        (
          Settled-later fs mid fs' arg kept' (Settled-check_arg arg fs mid here),
          Settled-earlier fs mid fs' kept rest settled',
        ),
      )

  from_parsed :
      (fs : Fields N) (u : Value N) (r : Result String (Value N))
      → parsed serde r ≡ ok u
      → as_object serde u ≡ ok fs
      → r ≡ ok (object fs)
  from_parsed fs (object g) (ok v) e e' = cc
  from_parsed fs u (err x) e e' = cc
  from_parsed fs _ (ok v) e e' = cc

  -- What `validate_args` returns is the parsed object with nothing supplied changed. It holds
  -- every required argument and every argument with a default, and each supplied value of an
  -- argument that is declared as a string, an integer, a boolean or an object is one: an
  -- integer is a number that fits an i64.
  pub validate_args-Settled :
      (def : ToolDefinition N) (args_json : String) (v : Value N)
      → validate_args serde def args_json ≡ ok v
      → (fs : Fields N) × (fs' : Fields N) × (serde.from_str args_json ≡ ok (object fs))
        × (v ≡ object fs')
        × Extends fs fs'
        × All (Settled fs fs') def.args
  unfolding validate_args
  validate_args-Settled def args_json v e =
      let (u, parsed_as, e') = and_then-eq-ok (parsed serde (serde.from_str args_json)) _ e in
      let (fs, is_object, e'') = and_then-eq-ok (as_object serde u) _ e' in
      let (fs', checked, made) = and_then-eq-ok (check_args serde def.args fs) _ e'' in
      let (kept, settled) = check_args-Settled def.args fs fs' checked in
      (fs, fs', from_parsed fs u _ parsed_as is_object, cc, kept, settled)
