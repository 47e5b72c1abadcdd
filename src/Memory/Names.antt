-- ===== src/Memory/Names.antt =====
-- The collections of different sessions (orchestrator/src/memory/store.rs).
use text.Mathlib.TextEquality.{Char-path}
use text.Mathlib.TextLemmas.{
  nil-append, cons-append, nil≢cons, head-eq_of_cons-eq, tail-eq_of_cons-eq,
}
use mathlib.Core.Path.{ap₂}
use ai_assistant.Prelude.{
  ℕ, Char, String, ◌<>◌, ◌≡◌, ◌≢◌, ◌∙◌, refl, ap, sym, inl, inr, some, arith, code, eqb, Bool-cases,
  strip_prefix_iff, if◌then◌else◌,
}
use ai_assistant.Memory.{MemoryStore, replace}
use ai_assistant.Memory.Store.{collection_name}

-- No character has the code.
abbrev pub Lacks : ℕ → String → Type 0
Lacks n String.[] = Unit
Lacks n (String.◌∷◌ c s) = (code c ≢ n) × Lacks n s

-- A character of the text, as it is replaced.
abbrev swapped : Char → Char
swapped c = if eqb (code c) b'-' then "_" else c

replace-cons :
    (c : Char) (s : String)
    → replace b'-' "_" (String.◌∷◌ c s) ≡ String.◌∷◌ (swapped c) (replace b'-' "_" s)
unfolding replace
replace-cons c s = elim (Bool-cases (eqb (code c) b'-')) [
  | inl dash ↦ rw (dash, cons-append, nil-append) refl
  | inr other ↦ rw other refl
]

-- The code of a character, as it is replaced.
abbrev swapped_code : ℕ → ℕ
swapped_code n = if eqb n b'-' then b'_' else n

code-swapped : (c : Char) → code (swapped c) ≡ swapped_code (code c)
code-swapped c = elim (Bool-cases (eqb (code c) b'-')) [
  | inl dash ↦ rw dash refl
  | inr other ↦ rw other refl
]

swapped_code-injective : (m n : ℕ) → m ≢ b'_' → n ≢ b'_' → swapped_code m ≡ swapped_code n → m ≡ n
swapped_code-injective m n nm nn h = ground (arith, nm, nn, h)

replace-injective :
    (s t : String) → Lacks b'_' s → Lacks b'_' t → replace b'-' "_" s ≡ replace b'-' "_" t → s ≡ t
unfolding replace
replace-injective String.[] String.[] hs ht h = refl
replace-injective String.[] (String.◌∷◌ d t) hs ht h = absurd (nil≢cons (h ∙ replace-cons d t))
replace-injective (String.◌∷◌ c s) String.[] hs ht h = absurd (nil≢cons (sym h ∙ replace-cons c s))
replace-injective (String.◌∷◌ c s) (String.◌∷◌ d t) hs ht h =
    let e = sym (replace-cons c s) ∙ h ∙ replace-cons d t in
    ap₂ String.◌∷◌
      (Char-path c d (
        swapped_code-injective (code c) (code d) hs.0 ht.0
          (sym (code-swapped c) ∙ ap code (head-eq_of_cons-eq e) ∙ code-swapped d)))
      (replace-injective s t hs.1 ht.1 (tail-eq_of_cons-eq e))

append_cancel : (p s t : String) → p <> s ≡ p <> t → s ≡ t
append_cancel p s t h =
    let found = (strip_prefix_iff p (p <> s) s).1 refl in
    let found' = (strip_prefix_iff p (p <> s) t).1 h in
    let e : some s ≡ some t = sym found ∙ found' in cc

-- Different sessions have different collections, if their identifiers have no underscore, as those
-- of `Uuid::new_v4` have none.
pub collection_name-ne :
    {W N V Q : Type 0} (self : MemoryStore W N V Q) (s t : String)
    → Lacks b'_' s
    → Lacks b'_' t
    → s ≢ t
    → collection_name self s ≢ collection_name self t
unfolding collection_name
collection_name-ne self s t hs ht ne same = ne (
    replace-injective s t hs ht
      (append_cancel "_" _ _ (append_cancel self.collection_prefix _ _ same)))
