-- ===== src/Memory/Store.antt =====
-- The operations of `MemoryStore` in orchestrator/src/memory/store.rs. A panic is `none`.
use ai_assistant.Prelude.{
  ℕ, suc, String, ◌<>◌, List, [], ◌∷◌, map, Option, none, some, Io, pure, ◌>>=◌, Result, ok, err,
  map_err, contains, show_ℕ, if◌then◌else◌,
}
use ai_assistant.Errors.{MemoryError, qdrant}
use ai_assistant.Proto.{Message}
use ai_assistant.Json.{Value, end, field, null, number, string, object}
use ai_assistant.Memory.{
  MemoryStore, Point, vector_dim, max_conversation_scroll, embed, embed_batch, replace, index,
  as_str, sort_by_key,
}

-- `?` on a result that an action gave, and on one that may be a panic.
abbrev pub or_return : {W E A B : Type 0} → Result E A → (A → Io W (Result E B)) → Io W (Result E B)
or_return (err e) k = pure (err e)
or_return (ok a) k = k a

abbrev pub or_panic :
    {W E A B : Type 0} → Option (Result E A) → (A → Io W (Result E B)) → Io W (Option (Result E B))
or_panic none k = pure none
or_panic (some (err e)) k = pure (some (err e))
or_panic (some (ok a)) k = do r ← k a; pure (some r)

abbrev pub discard : {E A : Type 0} → Result E A → Result E Unit
discard (err e) = err e
discard (ok _) = ok tt

-- `?` on an option, and `filter_map`.
abbrev pub and_some : {A B : Type 0} → Option A → (A → Option B) → Option B
and_some none k = none
and_some (some a) k = k a

abbrev pub unwrap_or : {A : Type 0} → A → Option A → A
unwrap_or default none = default
unwrap_or default (some a) = a

abbrev pub keep : {A : Type 0} → Option A → List A → List A
keep none rest = rest
keep (some a) rest = a ∷ rest

unfoldable pub filter_map : {A B : Type 0} → (A → Option B) → List A → List B
filter_map f [] = []
filter_map f (a ∷ rest) = keep (f a) (filter_map f rest)

module _ {W N V Q : Type 0} (self : MemoryStore W N V Q) where
  open self use {client, collection_prefix, engine, payloads, new_v4}
  open client use {list_collections, create_collection, upsert_points, scroll, search_points}
  open payloads use {try_into, default, to_value, from_u64, as_u64}

  unfoldable pub collection_name : String → String
  collection_name session_id = collection_prefix <> ("_" <> replace b'-' "_" session_id)

  unfoldable pub health_check : Io W (Result MemoryError Unit)
  health_check = do listed ← list_collections; pure (discard (map_err qdrant listed))

  unfoldable pub create_missing : String → List String → Io W (Result MemoryError Unit)
  create_missing name collections =
      if contains collections name
      then pure (ok tt)
      else do made ← create_collection name vector_dim; pure (map_err qdrant made)

  unfoldable pub ensure_collection : String → Io W (Result MemoryError Unit)
  ensure_collection session_id = do
    listed ← list_collections
    or_return (map_err qdrant listed) (create_missing (collection_name session_id))

  unfoldable pub to_payload : Value N → Q
  to_payload payload = elim (try_into payload) [ some q ↦ q | none ↦ default ]

  unfoldable pub upsert : String → List (Point V Q) → Io W (Result MemoryError Unit)
  upsert session_id points = do
    done ← upsert_points (collection_name session_id) points
    pure (map_err qdrant done)

  abbrev insert_new : String → Value N → V → Io W (Result MemoryError Unit)
  insert_new session_id payload vec = do
    id ← new_v4
    upsert session_id ((record { id = id; vector = vec; payload = to_payload payload }) ∷ [])

  abbrev embed_new :
      String → String → Value N → Result MemoryError Unit → Io W (Option (Result MemoryError Unit))
  embed_new session_id text payload (err e) = pure (some (err e))
  embed_new session_id text payload (ok _) = do
    vec ← embed engine text
    or_panic vec (insert_new session_id payload)

  unfoldable pub store : String → String → Value N → Io W (Option (Result MemoryError Unit))
  store session_id snippet payload = do
    ensured ← ensure_collection session_id
    embed_new session_id snippet payload ensured

  abbrev value_of : Q → Value N
  value_of q = elim (to_value q) [ some v ↦ v | none ↦ null ]

  abbrev search_near : String → ℕ → V → Io W (Result MemoryError (List (Value N)))
  search_near session_id top_k vec = do
    results ← search_points (collection_name session_id) vec top_k
    or_return (map_err qdrant results) λ found. pure (ok (map value_of found))

  abbrev embed_query :
      String
      → String
      → ℕ
      → Result MemoryError Unit
      → Io W (Option (Result MemoryError (List (Value N))))
  embed_query session_id query top_k (err e) = pure (some (err e))
  embed_query session_id query top_k (ok _) = do
    vec ← embed engine query
    or_panic vec (search_near session_id top_k)

  unfoldable pub search : String → String → ℕ → Io W (Option (Result MemoryError (List (Value N))))
  search session_id query top_k = do
    ensured ← ensure_collection session_id
    embed_query session_id query top_k ensured

  unfoldable pub conversation_payload : ℕ → Message → Value N
  conversation_payload seq msg = object (
      field "type" (string "conversation") (
        field "role" (string msg.role)
          (field "content" (string msg.content) (field "seq" (number (from_u64 seq)) end))))

  unfoldable pub conversation_id : ℕ → String
  conversation_id seq = "conv_" <> show_ℕ seq

  -- The messages, each with its vector, numbered from `seq`.
  unfoldable pub conversation_points : ℕ → List Message → List V → List (Point V Q)
  conversation_points seq [] vecs = []
  conversation_points seq (msg ∷ msgs) [] = []
  conversation_points seq (msg ∷ msgs) (vec ∷ vecs) =
      (record {
        id = conversation_id seq;
        vector = vec;
        payload = to_payload (conversation_payload seq msg);
      })
      ∷ conversation_points (suc seq) msgs vecs

  unfoldable pub store_embedded : String → List Message → Io W (Result MemoryError Unit)
  store_embedded session_id messages = do
    embedded ← embed_batch engine (map (λ m. m.content) messages)
    or_return embedded λ embeddings. upsert session_id (conversation_points 0 messages embeddings)

  unfoldable pub store_conversation : String → List Message → Io W (Result MemoryError Unit)
  store_conversation session_id [] = pure (ok tt)
  store_conversation session_id (msg ∷ msgs) = do
    ensured ← ensure_collection session_id
    or_return ensured λ _. store_embedded session_id (msg ∷ msgs)

  abbrev seq_of : Value N → Option ℕ
  seq_of (number n) = as_u64 n
  seq_of _ = none

  unfoldable pub read_point : Q → Option (ℕ × Message)
  read_point q = and_some (to_value q) λ payload. and_some (seq_of (index "seq" payload)) λ seq.
      and_some (as_str (index "role" payload)) λ role.
        and_some (as_str (index "content" payload))
          λ content. some (seq, record { role = role; content = content })

  unfoldable pub read_points : List Q → List Message
  read_points points = map (λ (e : ℕ × Message). e.1) (sort_by_key (filter_map read_point points))

  unfoldable pub scroll_all : String → Io W (Result MemoryError (List Message))
  scroll_all session_id = do
    response ← scroll (collection_name session_id) ("type", "conversation") max_conversation_scroll
    or_return (map_err qdrant response) λ points. pure (ok (read_points points))

  unfoldable pub get_conversation : String → Io W (Result MemoryError (List Message))
  get_conversation session_id = do
    ensured ← ensure_collection session_id
    or_return ensured λ _. scroll_all session_id
