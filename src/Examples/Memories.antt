-- ===== src/Examples/Memories.antt =====
-- The theorem of `Memory.Conversation` on a vector store of one collection, which is the world.
use mathlib.Core.List.Permᴰ
use mathlib.Core.List.{Permᴰ}
use ai_assistant.Prelude.{
  ℕ, suc, String, ◌≡◌, refl, ap, insert, show_ℕ, digits, digit, subst, ◌==◌, ◌≢◌, arith, List, [],
  ◌∷◌, map, some, Result, ok, length,
}
use ai_assistant.Proto.{Message}
use ai_assistant.Json.{Value}
use ai_assistant.Memory.{
  embed_batch, sort_by_key, index, insert_by_key, replace, MemoryStore, Engine, Payloads, Qdrant,
}
use ai_assistant.Memory.Store.{
  store_conversation, get_conversation, ensure_collection, create_missing, store_embedded, upsert,
  scroll_all, read_points, filter_map, conversation_points, conversation_id, collection_name,
  conversation_payload, read_point, to_payload,
}
use ai_assistant.Memory.Points.{Documented, overlay, insert_all, matches, matching, entries}
use ai_assistant.Memory.Conversation.{get_conversation-store_conversation}
use ai_assistant.Memory.Names.{collection_name-ne}
use ai_assistant.Samples.{say}

abbrev Points : Type 0
Points = List (String × Value ℕ)

abbrev payloads : Payloads ℕ (Value ℕ)
payloads = record {
  try_into = λ v. some v;
  default = Value.null;
  to_value = λ q. some q;
  from_u64 = λ n. n;
  as_u64 = λ n. some n;
}

abbrev units : List String → List ℕ
units [] = []
units (t ∷ texts) = 0 ∷ units texts

abbrev engine : Engine Points ℕ
engine = λ texts w. (ok (units texts), w)

abbrev client : Qdrant Points ℕ (Value ℕ)
client = record {
  list_collections = λ w. (ok [], w);
  create_collection = λ name dim w. (ok tt, w);
  upsert_points = λ name ps w. (ok tt, insert_all (map (λ p. (p.id, p.payload)) ps) w);
  scroll = λ name filter limit w. (ok (matching payloads filter.0 filter.1 w), w);
  search_points = λ name vec k w. (ok [], w);
}

abbrev memories : MemoryStore Points ℕ ℕ (Value ℕ)
memories = record {
  client = client;
  collection_prefix = "session";
  engine = some engine;
  payloads = payloads;
  new_v4 = λ w. ("id", w);
}

length-units : (texts : List String) → length (units texts) ≡ length texts
length-units [] = refl
length-units (t ∷ texts) = ap suc (length-units texts)

ok_is : {A : Type 0} {a b : A} → Path (Result String A) (ok a) (ok b) → a ≡ b
ok_is h = cc

engine_is : {f g : Engine Points ℕ} → some f ≡ some g → f ≡ g
engine_is h = cc

documented : Documented memories
documented = record {
  points = λ w name. w;
  listed = λ name w. refl;
  created = λ name made dim w. refl;
  upserted = λ name ps w h. refl;
  scrolled =
      λ name k s limit w qs h few. subst (Permᴰ (matching payloads k s w)) (ok_is h) (Permᴰ.refl _);
  carried = λ seq msg small. record {
    payload = _;
    made = refl;
    value = _;
    read_as = refl;
    fields = λ k. refl;
  };
  embedded = λ embed texts w vecs e.
      subst (λ (f : Engine Points ℕ). (f texts w).0 ≡ ok vecs → length vecs ≡ length texts)
        (engine_is e) (λ h. subst (λ l. length l ≡ length texts) (ok_is h) (length-units texts));
  embedding_kept =
      λ embed texts name w e. subst (λ (f : Engine Points ℕ). (f texts w).1 ≡ w) (engine_is e) refl;
  number_read = λ n small. refl;
}

abbrev before : List Message
before = say "user" "hi" ∷ say "assistant" "hello" ∷ []

abbrev told : List Message
told = say "user" "x" ∷ []

-- The second message of the longer conversation is still there.
abbrev read_back : List Message
read_back = say "user" "x" ∷ say "assistant" "hello" ∷ []

got :
    (get_conversation memories "a-b"
      (store_conversation memories "a-b" told (entries memories 0 before)).1).0
    ≡ ok read_back
unfolding store_conversation get_conversation ensure_collection create_missing store_embedded
    embed_batch upsert scroll_all read_points sort_by_key filter_map matching conversation_points
    insert conversation_id show_ℕ digits digit matches collection_name conversation_payload
    read_point to_payload index insert_by_key replace
got = refl

get_conversation-store_conversation_example : read_back ≡ overlay told before
unfolding documented store_conversation ensure_collection create_missing store_embedded embed_batch
    upsert
get_conversation-store_conversation_example =
    get_conversation-store_conversation memories documented "a-b" before told read_back
      (entries memories 0 before) refl (omega arith) refl got

different : Path String "a-b" "ab" → ⊥
different h = let e = ap (λ s. s == "ab") h in cc

collection_name-ne_example : collection_name memories "a-b" ≢ collection_name memories "ab"
collection_name-ne_example =
    collection_name-ne memories "a-b" "ab" (omega arith, (omega arith, (omega arith, tt)))
      (omega arith, (omega arith, tt)) different
