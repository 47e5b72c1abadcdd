-- ===== src/Config/Listed.antt =====
-- The two ways to give a list in the configuration (orchestrator/src/config.rs).
use mathlib.Core.List.{append_assoc}
use ai_assistant.Prelude.{
  Char, String, ◌<>◌, ◌≡◌, ◌≢◌, ◌∙◌, refl, ap, sym, true, false, List, [], ◌∷◌, ◌++◌, map, ok, All,
  Chars, chars, from_chars, from_chars-chars, chars-append, code, eqb, split, trim, trim_start,
  trim_end, is_whitespace,
}
use ai_assistant.Config.{
  str, seq, nonempty, cleaned, visit_str, visit_seq, deserialize_comma_separated_vec,
}

-- Without a comma.
abbrev pub IsOne : Chars → Type 0
IsOne = All (λ c. eqb (code c) b',' ≡ false)

abbrev pub IsBlank : Chars → Type 0
IsBlank = All (λ c. is_whitespace c ≡ true)

-- An item that may stand in a comma-separated list.
pub record IsItem (s : String) : Type 0 where
  pub one : IsOne (chars s)
  pub trimmed : trim (chars s) ≡ chars s
  pub filled : chars s ≢ []

-- The items with commas between them, and blanks after each comma.
unfoldable pub join : String → List String → String
join blank [] = ""
join blank (x ∷ []) = x
join blank (x ∷ y ∷ rest) = x <> ("," <> (blank <> join blank (y ∷ rest)))

split-IsOne : (s : Chars) → IsOne s → split b',' s ≡ s ∷ []
unfolding split
split-IsOne [] h = refl
split-IsOne (c ∷ s) (hc, hs) = rw (hc, split-IsOne s hs) refl

split-comma :
    (s t : Chars) (c : Char)
    → eqb (code c) b',' ≡ true
    → IsOne s
    → split b',' (s ++ c ∷ t) ≡ s ∷ split b',' t
unfolding split
split-comma [] t c comma h = rw comma refl
split-comma (d ∷ s) t c comma (hd, hs) = rw (hd, split-comma s t c comma hs) refl

All-append : (P : Char → Type 0) (s t : Chars) → All P s → All P t → All P (s ++ t)
All-append P [] t hs ht = ht
All-append P (c ∷ s) t (hc, hs) ht = (hc, All-append P s t hs ht)

IsOne-append : (front : Chars) (x : String) → IsOne front → IsItem x → IsOne (front ++ chars x)
IsOne-append front x fo hx = All-append (λ c. eqb (code c) b',' ≡ false) front (chars x) fo hx.one

trim-blank : (s t : Chars) → IsBlank s → trim (s ++ t) ≡ trim t
unfolding trim trim_start
trim-blank [] t h = refl
trim-blank (c ∷ s) t (hc, hs) = rw hc (trim-blank s t hs)

nonempty-filled : (s : Chars) (rest : List String) → s ≢ [] → nonempty s rest ≡ from_chars s ∷ rest
nonempty-filled [] rest h = absurd (h refl)
nonempty-filled (c ∷ s) rest h = refl

-- One part of the text is one item.
cleaned-item :
    (front : Chars) (s : String) (parts : List Chars)
    → IsBlank front
    → IsItem s
    → cleaned ((front ++ chars s) ∷ parts) ≡ s ∷ cleaned parts
unfolding cleaned
cleaned-item front s parts blank item =
    ap (λ t. nonempty t (cleaned parts)) (trim-blank front (chars s) blank ∙ item.trimmed)
    ∙ nonempty-filled (chars s) (cleaned parts) item.filled
    ∙ ap (λ x. x ∷ cleaned parts) (from_chars-chars s)

abbrev comma : Char
comma = ","

chars-join :
    (x blank later : String)
    → chars (x <> ("," <> (blank <> later))) ≡ chars x ++ comma ∷ (chars blank ++ chars later)
unfolding chars
chars-join x blank later =
    chars-append x ("," <> (blank <> later))
    ∙ ap (λ l. chars x ++ l)
        (chars-append "," (blank <> later) ∙ ap (λ l. comma ∷ l) (chars-append blank later))

cleaned-blank :
    (front : Chars) → IsBlank front → IsOne front → cleaned (split b',' (front ++ [])) ≡ []
unfolding cleaned trim trim_start trim_end
cleaned-blank front fb fo =
    ap cleaned
      (split-IsOne (front ++ []) (All-append (λ c. eqb (code c) b',' ≡ false) front [] fo tt))
    ∙ ap (λ t. nonempty t []) (trim-blank front [] fb)

cleaned-join :
    (front : Chars) (blank : String) (items : List String)
    → IsBlank front
    → IsOne front
    → IsBlank (chars blank)
    → IsOne (chars blank)
    → All IsItem items
    → cleaned (split b',' (front ++ chars (join blank items))) ≡ items
unfolding join chars cleaned
cleaned-join front blank [] fb fo bb bo h = cleaned-blank front fb fo
cleaned-join front blank (x ∷ []) fb fo bb bo (hx, _) =
    ap cleaned (split-IsOne (front ++ chars x) (IsOne-append front x fo hx))
    ∙ cleaned-item front x [] fb hx
cleaned-join front blank (x ∷ y ∷ rest) fb fo bb bo (hx, h) =
    let T = chars blank ++ chars (join blank (y ∷ rest)) in
    ap (λ l. cleaned (split b',' (front ++ l))) (chars-join x blank (join blank (y ∷ rest)))
    ∙ ap (λ l. cleaned (split b',' l)) (sym (append_assoc front (chars x) (comma ∷ T)))
    ∙ ap cleaned (split-comma (front ++ chars x) T comma refl (IsOne-append front x fo hx))
    ∙ cleaned-item front x (split b',' T) fb hx
    ∙ ap (λ l. x ∷ l) (cleaned-join (chars blank) blank (y ∷ rest) bb bo bb bo h)

visit_seq-map : (items : List String) → visit_seq (map (λ s. ok s) items) ≡ ok items
unfolding visit_seq
visit_seq-map [] = refl
visit_seq-map (x ∷ items) = rw (visit_seq-map items) refl

-- A list reads the same as a sequence and as its items in one text, with a comma and any blanks
-- after it between two of them; if no item has a comma, is empty, or begins or ends with a blank.
pub deserialize_comma_separated_vec-join :
    (blank : String) (items : List String)
    → IsBlank (chars blank)
    → IsOne (chars blank)
    → All IsItem items
    → (deserialize_comma_separated_vec (str (join blank items)) ≡ ok items)
      × (deserialize_comma_separated_vec (seq (map (λ s. ok s) items)) ≡ ok items)
unfolding deserialize_comma_separated_vec visit_str
deserialize_comma_separated_vec-join blank items bb bo h =
    (ap (λ l. ok l) (cleaned-join [] blank items tt tt bb bo h), visit_seq-map items)
