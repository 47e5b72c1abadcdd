-- ===== src/AgentLoop/Fence.antt =====
-- `TOOL_CALL_RE` of orchestrator/src/agent_loop/protocol.rs, the regular expression
-- "```tool_call\s*\n([\s\S]*?)\n```": `captures` is its leftmost match's first group. A greedy loop
-- prefers one character more, a lazy one the end.
pub mod Laws
pub mod Leftmost
pub mod RoundTrip
use ai_assistant.Prelude.{
  Bool, String, Option, none, some, [], ◌∷◌, Char, code, Chars, chars, from_chars, strip,
  split_once, is_whitespace, eqb, if◌then◌else◌,
}

-- The first of two ways that matches.
abbrev pub or_else : {A : Type 0} → Option A → Option A → Option A
or_else none second = second
or_else (some a) second = some a

abbrev pub opening : Chars
opening = chars "```tool_call"

abbrev pub closing : Chars
closing = chars "\n```"

abbrev pub group : Option (Chars × Chars) → Option Chars
group none = none
group (some (body, rest)) = some body

-- `([\s\S]*?)\n` and the closing fence
unfoldable pub lazy_body : Chars → Option Chars
lazy_body s = group (split_once closing s)

-- `\s*\n`, and what follows
unfoldable pub blank_line : Chars → Option Chars
blank_line [] = none
blank_line (c ∷ s) =
    let longer = blank_line s in
    let body = lazy_body s in
    or_else (if is_whitespace c then longer else none) (if eqb (code c) b'\n' then body else none)

abbrev pub after_opening : Option Chars → Option Chars
after_opening none = none
after_opening (some rest) = blank_line rest

-- The match that starts at the first character.
unfoldable pub match_here : Chars → Option Chars
match_here s = after_opening (strip opening s)

unfoldable pub leftmost : Chars → Option Chars
leftmost [] = match_here []
leftmost (c ∷ s) = or_else (match_here (c ∷ s)) (leftmost s)

abbrev pub text_of : Option Chars → Option String
text_of none = none
text_of (some s) = some (from_chars s)

unfoldable pub captures : String → Option String
captures s = text_of (leftmost (chars s))
