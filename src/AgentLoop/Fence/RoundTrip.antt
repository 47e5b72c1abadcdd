-- ===== src/AgentLoop/Fence/RoundTrip.antt =====
-- A tool call that is written as orchestrator/src/agent_loop/protocol.rs documents it, and read.
use ai_assistant.Prelude.{
  ◌≤◌, String, ◌<>◌, ◌≡◌, refl, sym, ap, subst, ◌∙◌, inl, inr, true, false, Option, none, some, [],
  ◌∷◌, ◌++◌, Char, Chars, code, chars, chars-append, from_chars-chars, strip, split_once, found,
  is_whitespace, eqb, eqb_iff, length, length-append, arith, Bool-cases, strip-append_self,
  split_once-append, after-eq-some,
}
use mathlib.Core.List.{append_assoc}
use text.Mathlib.TextEquality.{Char-path}
use ai_assistant.AgentLoop.Protocol.{ToolCallSyntax, parsed, extract_tool_call}
use ai_assistant.AgentLoop.Fence.{
  or_else, opening, closing, lazy_body, blank_line, after_opening, match_here, leftmost, text_of,
  captures,
}

-- The first character is there, and no white space.
abbrev pub Starts : Chars → Type 0
Starts [] = ⊥
Starts (c ∷ s) = is_whitespace c ≡ false

Starts-append : (s t : Chars) → Starts s → Starts (s ++ t)
Starts-append [] t h = absurd h
Starts-append (c ∷ s) t h = h

-- A pattern that is no prefix of a long text is none of a longer one.
strip-append_long :
    (p s t : Chars) → length p ≤ length s → strip p s ≡ none → strip p (s ++ t) ≡ none
unfolding strip
strip-append_long [] s t l h = cc
strip-append_long (c ∷ p) [] t l h = absurd (omega (arith, l))
strip-append_long (c ∷ p) (d ∷ s) t l h = elim (Bool-cases (eqb (code c) (code d))) [
  | inl same ↦
      let h' : strip p s ≡ none = rw same at h in
      rw same (strip-append_long p s t (omega (arith, l)) h')
  | inr other ↦ rw other refl
]

found-eq-cons :
    (o : Option Chars) (later : Option (Chars × Chars)) (c : Char) (a b : Chars)
    → found o later ≡ some (c ∷ a, b)
    → (o ≡ none) × (later ≡ some (c ∷ a, b))
found-eq-cons none later c a b h = (refl, h)
found-eq-cons (some rest) later c a b h = cc

-- The prose before a fence has no match, if the first opening fence is the fence's own.
leftmost-append :
    (prose t : Chars)
    → split_once opening (prose ++ opening) ≡ some (prose, [])
    → leftmost (prose ++ (opening ++ t)) ≡ leftmost (opening ++ t)
unfolding leftmost split_once match_here
leftmost-append [] t h = refl
leftmost-append (c ∷ prose) t h =
    let s = prose ++ opening in
    let (absent, later) = found-eq-cons (strip opening (c ∷ s)) _ c prose [] h in
    let (prose', same, rest) = after-eq-some c (split_once opening s) (c ∷ prose) [] later in
    let same' : prose ≡ prose' = cc in
    let ih = leftmost-append prose t (rest ∙ ap (λ x. some (x, [])) (sym same')) in
    let long : length opening ≤ length (c ∷ s) = omega (arith, length-append prose opening) in
    let longer = strip-append_long opening (c ∷ s) t long absent in
    let here : strip opening (c ∷ (prose ++ (opening ++ t))) ≡ none =
      ap (λ x. strip opening (c ∷ x)) (sym (append_assoc prose opening t)) ∙ longer in
    ap (λ x. or_else (after_opening x) (leftmost (prose ++ (opening ++ t)))) here ∙ ih

leftmost_here : (s body : Chars) → match_here s ≡ some body → leftmost s ≡ some body
unfolding leftmost
leftmost_here [] body h = h
leftmost_here (c ∷ s) body h = ap (λ x. or_else x (leftmost s)) h

-- White space is not skipped before a character that is none.
blank_line-Starts : (s : Chars) → Starts s → blank_line s ≡ none
unfolding blank_line is_whitespace
blank_line-Starts [] h = absurd h
blank_line-Starts (c ∷ s) h = elim (Bool-cases (eqb (code c) b'\n')) [
  | inl newline ↦
      let same : c ≡ "\n" = Char-path c "\n" ((eqb_iff (code c) b'\n').0 newline) in
      let wrong : true ≡ false = subst (λ x. is_whitespace x ≡ false) same h in cc
  | inr other ↦ rw (h, other) refl
]

blank_line-fenced :
    (json more : Chars)
    → Starts json
    → split_once closing json ≡ none
    → blank_line ("\n" ∷ (json ++ (closing ++ more))) ≡ some json
unfolding blank_line lazy_body chars is_whitespace
blank_line-fenced json more starts whole =
    let cut = split_once-append "\n" (chars "```") json more (refl, (refl, (refl, tt))) whole in
    let next : blank_line (json ++ (closing ++ more)) ≡ none =
      blank_line-Starts _ (Starts-append json _ starts) in
    rw (next, cut) refl

-- What the engine is told to write: prose, a fence with one tool call, and more prose.
abbrev pub fenced : String → String → String → String
fenced prose json more = prose <> ("```tool_call\n" <> (json <> ("\n```" <> more)))

chars-fenced :
    (prose json more : String)
    → chars (fenced prose json more)
      ≡ chars prose ++ (opening ++ ("\n" ∷ (chars json ++ (closing ++ chars more))))
unfolding chars
chars-fenced prose json more =
    rw
      (
        chars-append prose ("```tool_call\n" <> (json <> ("\n```" <> more))),
        chars-append "```tool_call\n" (json <> ("\n```" <> more)),
        chars-append json ("\n```" <> more),
        chars-append "\n```" more,
      )
      refl

leftmost-fenced :
    (prose json more : Chars)
    → split_once opening (prose ++ opening) ≡ some (prose, [])
    → Starts json
    → split_once closing json ≡ none
    → leftmost (prose ++ (opening ++ ("\n" ∷ (json ++ (closing ++ more))))) ≡ some json
unfolding match_here
leftmost-fenced prose json more own starts whole =
    let t = "\n" ∷ (json ++ (closing ++ more)) in
    let opened = ap after_opening (strip-append_self opening t) in
    leftmost-append prose t own
    ∙ leftmost_here (opening ++ t) json (opened ∙ blank_line-fenced json more starts whole)

-- The text of a tool call that the engine writes as the protocol documents it, with prose before
-- and after it, reaches the deserialiser as it was written: if the first opening fence is the
-- call's own, and the call's text begins with no white space and holds no closing fence.
pub extract_tool_call-fenced :
    {N : Type 0} (stx : ToolCallSyntax N) (prose json more : String)
    → split_once opening (chars prose ++ opening) ≡ some (chars prose, [])
    → Starts (chars json)
    → split_once closing (chars json) ≡ none
    → extract_tool_call stx (fenced prose json more) ≡ stx.from_str json
unfolding extract_tool_call captures
extract_tool_call-fenced stx prose json more own starts whole =
    let found =
      ap leftmost (chars-fenced prose json more)
      ∙ leftmost-fenced (chars prose) (chars json) (chars more) own starts whole in
    ap (λ o. parsed stx (text_of o)) found ∙ ap stx.from_str (from_chars-chars json)
