-- ===== src/Memory.antt =====
-- orchestrator/src/memory/: the store of conversations and memories in Qdrant (store.rs), and the
-- embedding of texts (embedding.rs). The clients of both are interfaces.
pub mod Store
pub mod Sort
pub mod Points
pub mod Conversation
pub mod Names
use ai_assistant.Prelude.{
  ℕ, zero, suc, ◌+◌, String, ◌<>◌, Bool, true, false, not, List, [], ◌∷◌, map, Option, none, some,
  Io, pure, ◌>>=◌, ◌>>◌, Result, ok, err, map_err, leb, eqb, code, ◌==◌, show_ℕ, if◌then◌else◌,
}
use ai_assistant.Errors.{MemoryError, qdrant, embedding}
use ai_assistant.Config.{QdrantSettings}
use ai_assistant.Proto.{Message}
use ai_assistant.Json.{Value, Fields, end, field, null, bool, number, string, array, object}

abbrev pub vector_dim : ℕ
vector_dim = 384

abbrev pub max_conversation_scroll : ℕ
max_conversation_scroll = 10_000

-- `PointStruct`: `V` is a vector, `Q` a payload of the client.
pub record Point (V Q : Type 0) : Type 0 where
  pub id : String
  pub vector : V
  pub payload : Q

-- The client of one Qdrant. A collection is given by its name and, when it is made, the size of its
-- vectors; a filter is a field of the payload and the text it holds; an error is its text.
pub record Qdrant (W V Q : Type 0) : Type 0 where
  pub list_collections : Io W (Result String (List String))
  pub create_collection : String → ℕ → Io W (Result String Unit)
  pub upsert_points : String → List (Point V Q) → Io W (Result String Unit)
  pub scroll : String → String × String → ℕ → Io W (Result String (List Q))
  pub search_points : String → V → ℕ → Io W (Result String (List Q))

-- Between payloads and the values of serde_json, and the numbers of those.
pub record Payloads (N Q : Type 0) : Type 0 where
  pub try_into : Value N → Option Q
  pub default : Q
  pub to_value : Q → Option (Value N)
  pub from_u64 : ℕ → N
  pub as_u64 : N → Option ℕ

-- `TextEmbedding::embed`
abbrev pub Engine : Type 0 → Type 0 → Type 0
Engine W V = List String → Io W (Result String (List V))

-- Where the engine is set, once.
unfoldable pub init :
    {W V : Type 0}
    → Io W (Result String (Engine W V))
    → Option (Engine W V)
    → Io W (Result MemoryError Unit × Option (Engine W V))
init try_new (some engine) = pure (ok tt, some engine)
init try_new none = do
  made ← try_new
  pure (elim made [ ok engine ↦ (ok tt, some engine) | err e ↦ (err (embedding e), none) ])

-- `result.remove(0)`; `none` is its panic.
abbrev pub remove_first : {V : Type 0} → Result String (List V) → Option (Result MemoryError V)
remove_first (err e) = some (err (embedding e))
remove_first (ok []) = none
remove_first (ok (v ∷ rest)) = some (ok v)

unfoldable pub embed :
    {W V : Type 0} → Option (Engine W V) → String → Io W (Option (Result MemoryError V))
embed none text =
    pure (some (err (embedding "EmbeddingEngine not initialised — call init() first")))
embed (some engine) text = do result ← engine (text ∷ []); pure (remove_first result)

unfoldable pub embed_batch :
    {W V : Type 0} → Option (Engine W V) → List String → Io W (Result MemoryError (List V))
embed_batch none texts = pure (err (embedding "EmbeddingEngine not initialised"))
embed_batch (some engine) texts = do result ← engine texts; pure (map_err embedding result)

-- `str::replace` of one character, given by its code.
unfoldable pub replace : ℕ → String → String → String
replace n to String.[] = ""
replace n to (String.◌∷◌ c s) =
    let rest = replace n to s in if eqb (code c) n then to <> rest else String.◌∷◌ c rest

-- `MemoryStore`, and the embedding engine, which is a static of the program.
pub record MemoryStore (W N V Q : Type 0) : Type 0 where
  pub client : Qdrant W V Q
  pub collection_prefix : String
  pub engine : Option (Engine W V)
  pub payloads : Payloads N Q
  pub new_v4 : Io W String

-- `build` makes a client of the address and the key; it does not connect.
unfoldable pub connect :
    {W V Q : Type 0}
    → (String → Option String → Result String (Qdrant W V Q))
    → QdrantSettings
    → Result MemoryError (Qdrant W V Q × String)
connect build settings = elim (build settings.url settings.api_key) [
  | ok client ↦ ok (client, settings.collection_prefix)
  | err e ↦ err (qdrant e)
]

-- `value[k]`
unfoldable pub index : {N : Type 0} → String → Value N → Value N
index k null = null
index k (bool b) = null
index k (number n) = null
index k (string s) = null
index k (array vs) = null
index k (object end) = null
index k (object (field j v fs)) = if j == k then v else index k (object fs)

abbrev pub as_str : {N : Type 0} → Value N → Option String
as_str (string s) = some s
as_str _ = none

-- `sort_by_key`, which is stable.
module _ {A : Type 0} where
  unfoldable pub insert_by_key : ℕ × A → List (ℕ × A) → List (ℕ × A)
  insert_by_key x [] = x ∷ []
  insert_by_key x (y ∷ ys) =
      let rest = insert_by_key x ys in if leb x.0 y.0 then x ∷ y ∷ ys else y ∷ rest

  unfoldable pub sort_by_key : List (ℕ × A) → List (ℕ × A)
  sort_by_key [] = []
  sort_by_key (x ∷ xs) = insert_by_key x (sort_by_key xs)
