-- ===== src/Json.antt =====
-- `serde_json`, as the program uses it. The values are a data type; the numbers, the parser and the
-- printers are the library's.
use ai_assistant.Prelude.{
  String, Bool, Option, none, some, Result, ◌≡◌, ◌==◌, if◌then◌else◌, arith, eq_iff,
}

mutual
  pub data Value (N : Type 0) : Type 0 where
    null : Value N
    bool : Bool → Value N
    number : N → Value N
    string : String → Value N
    array : Items N → Value N
    object : Fields N → Value N

  pub data Items (N : Type 0) : Type 0 where
    nil : Items N
    cons : Value N → Items N → Items N

  -- A `Map`: the first entry of a key counts.
  pub data Fields (N : Type 0) : Type 0 where
    end : Fields N
    field : String → Value N → Fields N → Fields N

-- `is_i64` is `as_i64().is_some()` on a number; the error of the parser is its text.
pub record Serde (N : Type 0) : Type 0 where
  pub is_i64 : N → Bool
  pub from_str : String → Result String (Value N)
  pub to_string : Value N → String
  pub to_string_pretty : Value N → String

module _ {N : Type 0} where
  -- `Map::get`
  unfoldable pub get : String → Fields N → Option (Value N)
  get k end = none
  get k (field j v fs) = if j == k then some v else get k fs

  -- `Map::insert`
  unfoldable pub insert : String → Value N → Fields N → Fields N
  insert k v end = field k v end
  insert k v (field j u fs) = if j == k then field k v fs else field j u (insert k v fs)

  pub get-insert :
      (k j : String) (v : Value N) (fs : Fields N)
      → get j (insert k v fs) ≡ (if k == j then some v else get j fs)
  unfolding get insert
  get-insert k j v end = ground arith
  get-insert k j v (field i u fs) =
      ground (arith, eq_iff k j, eq_iff i k, eq_iff i j, get-insert k j v fs)
