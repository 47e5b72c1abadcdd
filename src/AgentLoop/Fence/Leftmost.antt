-- ===== src/AgentLoop/Fence/Leftmost.antt =====
-- Where `TOOL_CALL_RE` of orchestrator/src/agent_loop/protocol.rs matches.
use ai_assistant.Prelude.{
  ℕ, suc, ◌≤◌, ◌≡◌, refl, ap, ◌∙◌, inl, inr, true, false, Option, none, some, [], ◌∷◌, ◌++◌, String,
  Char, Chars, chars, from_chars, strip, is_some, length, arith, Option-cases, strip-eq-some,
  strip-append_self,
}
use ai_assistant.AgentLoop.Fence.{
  opening, blank_line, after_opening, match_here, leftmost, text_of, captures,
}
use ai_assistant.AgentLoop.Fence.Laws.{
  Opened, Chosen, blank_line-Chosen, is_some-Opened, or_else-eq-some, is_some-or_else_left,
  is_some-or_else_right,
}

-- A fence with this body stands at the start of `s`, its blank line as long as it can be.
pub record Begins (s body : Chars) : Type 0 where
  pub after : Chars
  pub shape : s ≡ opening ++ after
  pub chosen : Chosen after body

-- `s` holds a fence with this body after `before`.
pub record Fenced (s before body : Chars) : Type 0 where
  pub tail : Chars
  pub shape : s ≡ before ++ (opening ++ tail)
  pub opened : Opened tail body

match_here-Begins : (s body : Chars) → match_here s ≡ some body → Begins s body
unfolding match_here
match_here-Begins s body h = elim (Option-cases (strip opening s)) [
  | inl absent ↦ let h' : none ≡ some body = rw absent at h in cc
  | inr (rest, e) ↦
      let h' : blank_line rest ≡ some body = rw e at h in
      record {
        after = rest;
        shape = strip-eq-some opening s rest e;
        chosen = blank_line-Chosen rest body h';
      }
]

is_some-match_here :
    (tail body : Chars) → Opened tail body → is_some (match_here (opening ++ tail)) ≡ true
unfolding match_here
is_some-match_here tail body o =
    ap (λ r. is_some (after_opening r)) (strip-append_self opening tail) ∙ is_some-Opened o

is_some-leftmost_here : (s : Chars) → is_some (match_here s) ≡ true → is_some (leftmost s) ≡ true
unfolding leftmost
is_some-leftmost_here [] h = h
is_some-leftmost_here (c ∷ s) h = is_some-or_else_left _ _ h

-- A fence anywhere is matched.
is_some-leftmost :
    (before tail body : Chars)
    → Opened tail body
    → is_some (leftmost (before ++ (opening ++ tail))) ≡ true
unfolding leftmost
is_some-leftmost [] tail body o =
    is_some-leftmost_here (opening ++ tail) (is_some-match_here tail body o)
is_some-leftmost (c ∷ before) tail body o =
    is_some-or_else_right (match_here (c ∷ (before ++ (opening ++ tail)))) _
      (is_some-leftmost before tail body o)

-- The match begins after `before`, and no fence begins earlier.
pub record First (s body : Chars) : Type 0 where
  pub before : Chars
  pub tail : Chars
  pub shape : s ≡ before ++ tail
  pub begins : Begins tail body
  pub earliest :
      (other_before other : Chars)
      → Fenced s other_before other
      → length before ≤ length other_before

later-Fenced :
    (c d : Char) (s before body : Chars) → Fenced (c ∷ s) (d ∷ before) body → Fenced s before body
later-Fenced c d s before body f = record {
  tail = f.tail;
  shape = (let e = f.shape in cc);
  opened = f.opened;
}

not_here :
    (s body : Chars)
    → match_here s ≡ none
    → (before : Chars) → Fenced s before body
    → 1 ≤ length before
not_here s body absent [] f =
    let there : is_some (match_here s) ≡ true =
      ap (λ x. is_some (match_here x)) f.shape ∙ is_some-match_here f.tail body f.opened in
    let wrong : false ≡ true = rw absent at there in cc
not_here s body absent (d ∷ before) f = omega arith

earlier :
    (c : Char) (s : Chars) (n : ℕ)
    → match_here (c ∷ s) ≡ none
    → ((before body : Chars) → Fenced s before body → n ≤ length before)
    → (before body : Chars) → Fenced (c ∷ s) before body
    → suc n ≤ length before
earlier c s n absent all [] body f = omega (arith, not_here (c ∷ s) body absent [] f)
earlier c s n absent all (d ∷ before) body f =
    omega (arith, all before body (later-Fenced c d s before body f))

at_start : (s body : Chars) → match_here s ≡ some body → First s body
at_start s body h = record {
  before = [];
  tail = s;
  shape = refl;
  begins = match_here-Begins s body h;
  earliest = λ other_before other f. omega arith;
}

leftmost-First : (s body : Chars) → leftmost s ≡ some body → First s body
unfolding leftmost
leftmost-First [] body h = at_start [] body h
leftmost-First (c ∷ s) body h = elim (or_else-eq-some (match_here (c ∷ s)) (leftmost s) body h) [
  | inl here ↦ at_start (c ∷ s) body here
  | inr (absent, later) ↦
      let f = leftmost-First s body later in
      record {
        before = c ∷ f.before;
        tail = f.tail;
        shape = ap (◌∷◌ c) f.shape;
        begins = f.begins;
        earliest = earlier c s (length f.before) absent f.earliest;
      }
]

-- What the first group of the match in `s` is.
pub data Captured (s : String) : Option String → Type 0 where
  no_fence : ((before body : Chars) → ¬ Fenced (chars s) before body) → Captured s none
  fence : (body : Chars) → First (chars s) body → Captured s (some (from_chars body))

of_leftmost : (s : String) (o : Option Chars) → leftmost (chars s) ≡ o → Captured s (text_of o)
of_leftmost s none e = no_fence (λ before body f.
    let there : is_some (leftmost (chars s)) ≡ true =
      ap (λ x. is_some (leftmost x)) f.shape ∙ is_some-leftmost before f.tail body f.opened in
    let wrong : false ≡ true = rw e at there in cc)
of_leftmost s (some body) e = fence body (leftmost-First (chars s) body e)

-- The expression finds a tool call exactly where there is one: "```tool_call", a blank rest of the
-- line and any further white space up to a newline, the body, and a newline with "```". Of several it
-- takes the earliest, with the longest white space, and with the shortest body after it.
pub captures-Captured : (s : String) → Captured s (captures s)
unfolding captures
captures-Captured s = of_leftmost s (leftmost (chars s)) refl
