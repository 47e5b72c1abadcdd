-- ===== src/Memory/Conversation.antt =====
-- A conversation that is stored and read back (orchestrator/src/memory/store.rs).
use mathlib.Core.Path.{ap₂}
use mathlib.Core.List.{Permᴰ}
use ai_assistant.Prelude.{
  ℕ, suc, ◌+◌, ◌≤◌, ◌<◌, ◌^◌, String, ◌≡◌, ◌∙◌, refl, ap, sym, subst, true, List, [], ◌∷◌, map,
  Option, none, some, pure, Result, ok, err, map_err, arith, length,
}
use ai_assistant.Errors.{MemoryError, qdrant, embedding}
use ai_assistant.Proto.{Message}
use ai_assistant.Json.{Value}
use ai_assistant.Memory.{MemoryStore, Engine, embed_batch, index, as_str}
use ai_assistant.Memory.Store.{
  or_return, filter_map, unwrap_or, collection_name, create_missing, ensure_collection, to_payload,
  upsert, conversation_payload, conversation_points, store_embedded, store_conversation, read_point,
  read_points, scroll_all, get_conversation,
}
use ai_assistant.Memory.Sort.{numbered, sort_by_key-shuffled, filter_map-Permᴰ}
use ai_assistant.Memory.Points.{
  overlay, insert_all, field_is, text_is, matches, matching, Carries, Documented, entries,
  entries-points, length-entries, insert_all-entries,
}

map_err-ok : {E F A : Type 0} (f : E → F) (r : Result E A) {a : A} → map_err f r ≡ ok a → r ≡ ok a
map_err-ok f (ok a) h = cc
map_err-ok f (err e) h = cc

err≢ok : {E A : Type 0} {e : E} {a : A} → ¬ (Path (Result E A) (err e) (ok a))
err≢ok h = cc

ok-injective : {E A : Type 0} {a b : A} → Path (Result E A) (ok a) (ok b) → a ≡ b
ok-injective h = cc

module _ {W N V Q : Type 0} (self : MemoryStore W N V Q) (doc : Documented self) where
  open self use {client, payloads, engine}

  to_payload-Carries : (v : Value N) (c : Carries payloads v) → to_payload self v ≡ c.payload
  unfolding to_payload
  to_payload-Carries v c = ap (unwrap_or payloads.default) c.made

  entry-matches :
      (seq : ℕ) (msg : Message)
      → seq < 2 ^ 63
      → matches payloads "type" "conversation" (to_payload self (conversation_payload self seq msg))
        ≡ true
  unfolding matches conversation_payload index
  entry-matches seq msg small =
      let c = doc.carried seq msg small in
      ap (matches payloads "type" "conversation") (to_payload-Carries _ c)
      ∙ ap (field_is payloads "type" "conversation") c.read_as
      ∙ ap (λ v. text_is "conversation" (as_str v)) (c.fields "type")

  entry-read :
      (seq : ℕ) (msg : Message)
      → seq < 2 ^ 63
      → read_point self (to_payload self (conversation_payload self seq msg)) ≡ some (seq, msg)
  unfolding read_point conversation_payload index
  entry-read seq msg small =
      let c = doc.carried seq msg small in
      ap (read_point self) (to_payload-Carries _ c)
      ∙ rw
          (
            c.read_as,
            c.fields "seq",
            c.fields "role",
            c.fields "content",
            doc.number_read seq small,
          )
          refl

  -- The points of a conversation read as its messages, numbered.
  entries-read :
      (k : ℕ) (msgs : List Message)
      → k + length msgs ≤ 2 ^ 63
      → filter_map (read_point self) (matching payloads "type" "conversation" (entries self k msgs))
        ≡ numbered k msgs
  unfolding matching filter_map
  entries-read k [] small = refl
  entries-read k (msg ∷ msgs) small =
      rw (entry-matches k msg (omega (arith, small)), entry-read k msg (omega (arith, small)))
        (ap (λ l. (k, msg) ∷ l) (entries-read (suc k) msgs (omega (arith, small))))

  create_missing-points :
      (name made : String) (collections : List String) (w : W)
      → doc.points (create_missing self made collections w).1 name ≡ doc.points w name
  unfolding create_missing
  create_missing-points name made collections w = ground (arith, doc.created name made 384 w)

  ensure_missing-points :
      (name made : String) (r : Result MemoryError (List String)) (w : W)
      → doc.points (or_return r (create_missing self made) w).1 name ≡ doc.points w name
  ensure_missing-points name made (err e) w = refl
  ensure_missing-points name made (ok collections) w = create_missing-points name made collections w

  -- Making sure of a collection changes no points.
  pub ensure_collection-points :
      (name session_id : String) (w : W)
      → doc.points (ensure_collection self session_id w).1 name ≡ doc.points w name
  unfolding ensure_collection
  ensure_collection-points name session_id w =
      ensure_missing-points name (collection_name self session_id)
        (map_err qdrant (client.list_collections w).0) (client.list_collections w).1
      ∙ doc.listed name w

  length-map : (msgs : List Message) → length (map (λ (m : Message). m.content) msgs) ≡ length msgs
  length-map [] = refl
  length-map (m ∷ msgs) = ap suc (length-map msgs)

  module _ (session_id : String) where
    abbrev Holds : List Message → W → Type 0
    Holds msgs w = doc.points w (collection_name self session_id) ≡ entries self 0 msgs

    upsert-Holds :
        (old msgs : List Message) (vecs : List V) (w : W)
        → length vecs ≡ length msgs
        → Holds old w
        → (upsert self session_id (conversation_points self 0 msgs vecs) w).0 ≡ ok tt
        → Holds
            (overlay msgs old)
            (upsert self session_id (conversation_points self 0 msgs vecs) w).1
    unfolding upsert
    upsert-Holds old msgs vecs w same h done =
        doc.upserted _ _ w (map_err-ok qdrant _ done)
        ∙ ap₂ insert_all (entries-points self 0 msgs vecs same) h
        ∙ insert_all-entries self 0 msgs old

    embedded-Holds :
        (old msgs : List Message) (r : Result MemoryError (List V)) (w : W)
        → ((vecs : List V) → r ≡ ok vecs → length vecs ≡ length msgs)
        → Holds old w
        → (or_return r (λ vecs. upsert self session_id (conversation_points self 0 msgs vecs)) w).0
          ≡ ok tt
        → Holds
            (overlay msgs old)
            (or_return r
              (λ vecs. upsert self session_id (conversation_points self 0 msgs vecs))
              w).1
    embedded-Holds old msgs (err e) w each h done = absurd (err≢ok done)
    embedded-Holds old msgs (ok vecs) w each h done =
        upsert-Holds old msgs vecs w (each vecs refl) h done

    engine-Holds :
        (o : Option (Engine W V)) (old msgs : List Message) (texts : List String) (w : W)
        → engine ≡ o
        → length texts ≡ length msgs
        → Holds old w
        → let (r, w') = embed_batch o texts w in
          ((vecs : List V) → r ≡ ok vecs → length vecs ≡ length msgs) × Holds old w'
    unfolding embed_batch
    engine-Holds none old msgs texts w e same h = ((λ vecs made. absurd (err≢ok made)), h)
    engine-Holds (some embed) old msgs texts w e same h = (
      (λ vecs made. doc.embedded embed texts w vecs e (map_err-ok embedding _ made) ∙ same),
      doc.embedding_kept embed texts _ w e ∙ h,
    )

    store_embedded-Holds :
        (old msgs : List Message) (w : W)
        → Holds old w
        → (store_embedded self session_id msgs w).0 ≡ ok tt
        → Holds (overlay msgs old) (store_embedded self session_id msgs w).1
    unfolding store_embedded
    store_embedded-Holds old msgs w h done =
        let (each, kept) =
          engine-Holds engine old msgs (map (λ m. m.content) msgs) w refl (length-map msgs) h in
        embedded-Holds old msgs _ _ each kept done

    ensured-Holds :
        (old msgs : List Message) (r : Result MemoryError Unit) (w : W)
        → Holds old w
        → (or_return r (λ _. store_embedded self session_id msgs) w).0 ≡ ok tt
        → Holds (overlay msgs old) (or_return r (λ _. store_embedded self session_id msgs) w).1
    ensured-Holds old msgs (err e) w h done = absurd (err≢ok done)
    ensured-Holds old msgs (ok _) w h done = store_embedded-Holds old msgs w h done

    -- Where a collection holds a conversation, storing another one, if it succeeds, puts its messages
    -- in the places of the first messages of the old one, and keeps what the old one has beyond.
    pub store_conversation-Holds :
        (old msgs : List Message) (w : W)
        → doc.points w (collection_name self session_id) ≡ entries self 0 old
        → (store_conversation self session_id msgs w).0 ≡ ok tt
        → doc.points (store_conversation self session_id msgs w).1 (collection_name self session_id)
          ≡ entries self 0 (overlay msgs old)
    unfolding store_conversation
    store_conversation-Holds old [] w h done = h
    store_conversation-Holds old (msg ∷ msgs) w h done =
        ensured-Holds old (msg ∷ msgs) _ _ (ensure_collection-points _ session_id w ∙ h) done

    scroll_all-Holds :
        (msgs : List Message) (w : W) (r : Result String (List Q)) (w' : W)
        → (client.scroll (collection_name self session_id) ("type", "conversation") 10_000 w).0 ≡ r
        → Holds msgs w
        → length msgs ≤ 10_000
        → (out : List Message)
        → (or_return {W = W}
            (map_err qdrant r)
            (λ points. pure (ok (read_points self points)))
            w').0
          ≡ ok out
        → out ≡ msgs
    unfolding read_points
    scroll_all-Holds msgs w (err e) w' got h few out done = absurd (err≢ok done)
    scroll_all-Holds msgs w (ok qs) w' got h few out done =
        let shuffled =
          doc.scrolled (collection_name self session_id) "type" "conversation" 10_000 w qs got
            (rw h (rw (length-entries self 0 msgs) few)) in
        let read = filter_map-Permᴰ (read_point self) shuffled in
        let numbered_of : Permᴰ (numbered 0 msgs) (filter_map (read_point self) qs) =
          subst (λ l. Permᴰ l (filter_map (read_point self) qs))
            (ap (λ l. filter_map (read_point self) (matching payloads "type" "conversation" l)) h
              ∙ entries-read 0 msgs (omega (arith, few)))
            read in
        sym (ok-injective done) ∙ sort_by_key-shuffled msgs _ numbered_of

    ensured-get :
        (msgs : List Message) (r : Result MemoryError Unit) (w : W)
        → Holds msgs w
        → length msgs ≤ 10_000
        → (out : List Message) → (or_return r (λ _. scroll_all self session_id) w).0 ≡ ok out
        → out ≡ msgs
    unfolding scroll_all
    ensured-get msgs (err e) w h few out done = absurd (err≢ok done)
    ensured-get msgs (ok _) w h few out done = scroll_all-Holds msgs w _ _ refl h few out done

    get_conversation-Holds :
        (msgs out : List Message) (w : W)
        → Holds msgs w
        → length msgs ≤ 10_000
        → (get_conversation self session_id w).0 ≡ ok out
        → out ≡ msgs
    unfolding get_conversation
    get_conversation-Holds msgs out w h few done =
        ensured-get msgs _ _ (ensure_collection-points _ session_id w ∙ h) few out done

    -- A conversation that was stored over another one reads back, if both calls succeed, as its own
    -- messages in their order, and after them those that the old one has beyond; whatever the order
    -- in which Qdrant lists the points, if there are 10000 at most.
    pub get_conversation-store_conversation :
        (old msgs out : List Message) (w : W)
        → doc.points w (collection_name self session_id) ≡ entries self 0 old
        → length (overlay msgs old) ≤ 10_000
        → (store_conversation self session_id msgs w).0 ≡ ok tt
        → (get_conversation self session_id (store_conversation self session_id msgs w).1).0
          ≡ ok out
        → out ≡ overlay msgs old
    get_conversation-store_conversation old msgs out w h few stored got =
        get_conversation-Holds (overlay msgs old) out _
          (store_conversation-Holds old msgs w h stored) few got
