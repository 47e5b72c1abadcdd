-- ===== src/Memory/Points.antt =====
-- The points of a conversation (orchestrator/src/memory/store.rs), and what Qdrant and the payloads
-- are relied on for.
use mathlib.Core.List.{Permᴰ}
use ai_assistant.Prelude.{
  ℕ, suc, ◌≤◌, ◌<◌, ◌^◌, String, ◌<>◌, ◌==◌, ◌≡◌, ◌∙◌, refl, ap, sym, inl, inr, Bool, false, List,
  [], ◌∷◌, map, Option, none, some, ok, arith, length, insert, show_ℕ, show_ℕ-injective,
  strip_prefix_iff, eq_iff, eq_refl, Bool-cases, if◌then◌else◌,
}
use ai_assistant.Proto.{Message}
use ai_assistant.Json.{Value}
use ai_assistant.Memory.{MemoryStore, Engine, Point, Payloads, index, as_str}
use ai_assistant.Memory.Store.{
  conversation_id, conversation_payload, conversation_points, to_payload,
}

-- `new`, and after it what `old` has beyond.
abbrev pub overlay : {A : Type 0} → List A → List A → List A
overlay [] old = old
overlay (x ∷ new) [] = x ∷ new
overlay (x ∷ new) (y ∷ old) = x ∷ overlay new old

-- Points are put in one after the other, each in the place of the one with its identifier.
abbrev pub insert_all : {Q : Type 0} → List (String × Q) → List (String × Q) → List (String × Q)
insert_all [] points = points
insert_all ((id, q) ∷ rest) points = insert_all rest (insert id q points)

overlay-nil : {A : Type 0} (xs : List A) → overlay xs [] ≡ xs
overlay-nil [] = refl
overlay-nil (x ∷ xs) = refl

some-injective : {A : Type 0} {a b : A} → some a ≡ some b → a ≡ b
some-injective h = cc

insert_other :
    {Q : Type 0} (k j : String) (v u : Q) (m : List (String × Q))
    → (j == k) ≡ false
    → insert k v ((j, u) ∷ m) ≡ (j, u) ∷ insert k v m
unfolding insert
insert_other k j v u m h = rw h refl

insert_same :
    {Q : Type 0} (k : String) (v u : Q) (m : List (String × Q))
    → insert k v ((k, u) ∷ m) ≡ (k, v) ∷ m
unfolding insert
insert_same k v u m = rw (eq_refl k) refl

abbrev pub text_is : String → Option String → Bool
text_is s none = false
text_is s (some t) = t == s

module _ {N Q : Type 0} (payloads : Payloads N Q) where
  open payloads use {try_into, to_value, from_u64, as_u64}

  -- A payload that holds the text in the field.
  abbrev pub field_is : String → String → Option (Value N) → Bool
  field_is k s none = false
  field_is k s (some v) = text_is s (as_str (index k v))

  unfoldable pub matches : String → String → Q → Bool
  matches k s q = field_is k s (to_value q)

  unfoldable pub matching : String → String → List (String × Q) → List Q
  matching k s [] = []
  matching k s ((id, q) ∷ points) =
      let rest = matching k s points in if matches k s q then q ∷ rest else rest

  -- A payload that is given as a value of serde_json reads as it was given, field by field.
  pub record Carries (v : Value N) : Type 0 where
    pub payload : Q
    pub made : try_into v ≡ some payload
    pub value : Value N
    pub read_as : to_value payload ≡ some value
    pub fields : (k : String) → index k value ≡ index k v

module _ {W N V Q : Type 0} (self : MemoryStore W N V Q) where
  open self use {client, payloads, engine}

  -- `points` is what each collection holds.
  pub record Documented : Type 0 where
    pub points : W → String → List (String × Q)
    pub listed : (name : String) (w : W) → points (client.list_collections w).1 name ≡ points w name
    pub created :
        (name made : String) (dim : ℕ) (w : W)
        → points (client.create_collection made dim w).1 name ≡ points w name
    pub upserted :
        (name : String) (ps : List (Point V Q)) (w : W)
        → (client.upsert_points name ps w).0 ≡ ok tt
        → points (client.upsert_points name ps w).1 name
          ≡ insert_all (map (λ (p : Point V Q). (p.id, p.payload)) ps) (points w name)
    pub scrolled :
        (name k s : String) (limit : ℕ) (w : W) (qs : List Q)
        → (client.scroll name (k, s) limit w).0 ≡ ok qs
        → length (points w name) ≤ limit
        → Permᴰ (matching payloads k s (points w name)) qs
    pub carried :
        (seq : ℕ) (msg : Message)
        → seq < 2 ^ 63
        → Carries payloads (conversation_payload self seq msg)
    pub embedded :
        (embed : Engine W V) (texts : List String) (w : W) (vecs : List V)
        → engine ≡ some embed
        → (embed texts w).0 ≡ ok vecs
        → length vecs ≡ length texts
    pub embedding_kept :
        (embed : Engine W V) (texts : List String) (name : String) (w : W)
        → engine ≡ some embed
        → points (embed texts w).1 name ≡ points w name
    pub number_read : (n : ℕ) → n < 2 ^ 63 → payloads.as_u64 (payloads.from_u64 n) ≡ some n

  -- The points of a conversation, from number `k` on.
  abbrev pub entries : ℕ → List Message → List (String × Q)
  entries k [] = []
  entries k (msg ∷ msgs) =
      (conversation_id self k, to_payload self (conversation_payload self k msg))
      ∷ entries (suc k) msgs

  pub entries-points :
      (k : ℕ) (msgs : List Message) (vecs : List V)
      → length vecs ≡ length msgs
      → map (λ (p : Point V Q). (p.id, p.payload)) (conversation_points self k msgs vecs)
        ≡ entries k msgs
  unfolding conversation_points
  entries-points k [] vecs h = refl
  entries-points k (msg ∷ msgs) [] h = absurd (omega (arith, h))
  entries-points k (msg ∷ msgs) (vec ∷ vecs) h =
      ap (λ l. (conversation_id self k, to_payload self (conversation_payload self k msg)) ∷ l)
        (entries-points (suc k) msgs vecs (omega (arith, h)))

  pub length-entries : (k : ℕ) (msgs : List Message) → length (entries k msgs) ≡ length msgs
  length-entries k [] = refl
  length-entries k (msg ∷ msgs) = ap suc (length-entries (suc k) msgs)

  conversation_id-injective : (i j : ℕ) → conversation_id self i ≡ conversation_id self j → i ≡ j
  unfolding conversation_id
  conversation_id-injective i j h =
      let (_, from) = strip_prefix_iff "conv_" ("conv_" <> show_ℕ j) (show_ℕ i) in
      let (_, from') = strip_prefix_iff "conv_" ("conv_" <> show_ℕ j) (show_ℕ j) in
      show_ℕ-injective i j (some-injective (sym (from (sym h)) ∙ from' refl))

  conversation_id-apart :
      (i j : ℕ) → i < j → (conversation_id self i == conversation_id self j) ≡ false
  conversation_id-apart i j lt =
      elim (Bool-cases (conversation_id self i == conversation_id self j)) [
        | inl same ↦
            let e = conversation_id-injective i j ((eq_iff _ _).0 same) in
            absurd (omega (arith, lt, e))
        | inr other ↦ other
      ]

  insert_all-past :
      (k i : ℕ) (q : Q) (msgs : List Message) (points : List (String × Q))
      → k < i
      → insert_all (entries i msgs) ((conversation_id self k, q) ∷ points)
        ≡ (conversation_id self k, q) ∷ insert_all (entries i msgs) points
  unfolding insert
  insert_all-past k i q [] points lt = refl
  insert_all-past k i q (msg ∷ msgs) points lt =
      ap (insert_all (entries (suc i) msgs)) (
        insert_other (conversation_id self i) (conversation_id self k) _ q points
          (conversation_id-apart k i lt))
      ∙ insert_all-past k (suc i) q msgs _ (omega (arith, lt))

  -- Putting in a conversation over another.
  pub insert_all-entries :
      (k : ℕ) (new old : List Message)
      → insert_all (entries k new) (entries k old) ≡ entries k (overlay new old)
  unfolding insert
  insert_all-entries k [] old = refl
  insert_all-entries k (x ∷ new) [] =
      insert_all-past k (suc k) _ new [] (omega arith)
      ∙ ap (λ l. (conversation_id self k, to_payload self (conversation_payload self k x)) ∷ l)
          (insert_all-entries (suc k) new [] ∙ ap (entries (suc k)) (overlay-nil new))
  insert_all-entries k (x ∷ new) (y ∷ old) =
      ap (insert_all (entries (suc k) new))
        (insert_same (conversation_id self k) _ _ (entries (suc k) old))
      ∙ insert_all-past k (suc k) _ new (entries (suc k) old) (omega arith)
      ∙ ap (λ l. (conversation_id self k, to_payload self (conversation_payload self k x)) ∷ l)
          (insert_all-entries (suc k) new old)
