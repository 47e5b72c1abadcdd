-- ===== src/Tools/Definition/Validate.antt =====
-- `validate_args` of orchestrator/src/tool_registry/definition.rs. Its laws are in `Laws`.
pub mod Laws
use ai_assistant.Prelude.{
  String, ◌<>◌, Bool, true, false, ◌&&◌, List, [], ◌∷◌, Option, none, some, Result, ok, err,
  and_then, ◌==◌, if◌then◌else◌,
}
use ai_assistant.Errors.{ToolError, invalid_args}
use ai_assistant.Json.{Value, null, bool, number, string, array, object, Fields, Serde, get, insert}
use ai_assistant.Tools.Definition.{ArgDef, ToolDefinition}

module _ {N : Type 0} where
  abbrev is_string : Value N → Bool
  is_string (string s) = true
  is_string _ = false

  abbrev is_boolean : Value N → Bool
  is_boolean (bool b) = true
  is_boolean _ = false

  abbrev is_object : Value N → Bool
  is_object (object fs) = true
  is_object _ = false

  unfoldable pub value_type_name : Value N → String
  value_type_name null = "null"
  value_type_name (bool b) = "boolean"
  value_type_name (number n) = "number"
  value_type_name (string s) = "string"
  value_type_name (array xs) = "array"
  value_type_name (object fs) = "object"

module _ {N : Type 0} (serde : Serde N) where
  abbrev is_integer : Value N → Bool
  is_integer (number n) = serde.is_i64 n
  is_integer _ = false

  -- An unknown type accepts any value.
  unfoldable pub type_ok : String → Value N → Bool
  type_ok ty v =
      if ty == "string"
      then is_string v
      else if ty == "integer"
      then is_integer v
      else if ty == "boolean"
      then is_boolean v
      else if ty == "object"
      then is_object v
      else true

  abbrev inject_default : ArgDef N → Option (Value N) → Fields N → Fields N
  inject_default arg none obj = obj
  inject_default arg (some d) obj = insert arg.name d obj

  -- One round of the loop, on what the object holds under the argument's name.
  unfoldable pub check_arg : ArgDef N → Fields N → Option (Value N) → Result ToolError (Fields N)
  check_arg arg obj (some v) =
      if type_ok arg.ty v
      then ok obj
      else err (
          invalid_args (
            "arg `"
            <> arg.name
            <> "`: expected type `"
            <> arg.ty
            <> "`, got `"
            <> value_type_name v
            <> "`"))
  check_arg arg obj none =
      if arg.required
      then err (invalid_args ("required arg `" <> arg.name <> "` is missing"))
      else ok (inject_default arg arg.default obj)

  unfoldable pub check_args : List (ArgDef N) → Fields N → Result ToolError (Fields N)
  check_args [] obj = ok obj
  check_args (arg ∷ rest) obj = and_then (check_arg arg obj (get arg.name obj)) (check_args rest)

  abbrev as_object : Value N → Result ToolError (Fields N)
  as_object (object fs) = ok fs
  as_object _ = err (invalid_args "args must be a JSON object")

  abbrev parsed : Result String (Value N) → Result ToolError (Value N)
  parsed (ok v) = ok v
  parsed (err e) = err (invalid_args ("args is not valid JSON: " <> e))

  unfoldable pub validate_args : ToolDefinition N → String → Result ToolError (Value N)
  validate_args def args_json =
      and_then (parsed (serde.from_str args_json)) λ v.
        and_then (as_object v) λ obj. and_then (check_args def.args obj) λ obj'. ok (object obj')
