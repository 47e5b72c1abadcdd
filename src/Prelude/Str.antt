-- ===== src/Prelude/Str.antt =====
-- The methods of `str` that the program calls, on the characters of a text.
use Prim.Native.Nat.{ℕ}
use Prim.Native.Char.{Char, code}
use Prim.Native.String.{String, ◌++◌ as ◌<>◌}
use mathlib.Core.Path.{◌≡◌, refl, ap}
use mathlib.Core.Bool.{Bool, ◌||◌, ◌&&◌}
use mathlib.Core.List.{List, [], ◌∷◌, ◌++◌}
use mathlib.Core.Option.{Option, none, some}
use text.Mathlib.TextLemmas.{nil-append, cons-append}
use ai_assistant.Prelude.Tests.{eqb, leb, if◌then◌else◌}

abbrev pub Chars : Type 0
Chars = List Char

unfoldable pub chars : String → Chars
chars String.[] = []
chars (String.◌∷◌ c s) = c ∷ chars s

unfoldable pub from_chars : Chars → String
from_chars [] = ""
from_chars (c ∷ s) = String.◌∷◌ c (from_chars s)

pub from_chars-chars : (s : String) → from_chars (chars s) ≡ s
unfolding from_chars chars
from_chars-chars String.[] = refl
from_chars-chars (String.◌∷◌ c s) = ap (String.◌∷◌ c) (from_chars-chars s)

pub chars-append : (s t : String) → chars (s <> t) ≡ chars s ++ chars t
unfolding chars
chars-append String.[] t = rw nil-append refl
chars-append (String.◌∷◌ c s) t = rw cons-append (ap (◌∷◌ c) (chars-append s t))

-- Unicode's `White_Space`.
unfoldable pub is_whitespace : Char → Bool
is_whitespace c =
    let n = code c in
    leb 9 n && leb n 13
    || eqb n 0x20
    || eqb n 0x85
    || eqb n 0xA0
    || eqb n 0x1680
    || leb 0x2000 n && leb n 0x200A
    || eqb n 0x2028
    || eqb n 0x2029
    || eqb n 0x202F
    || eqb n 0x205F
    || eqb n 0x3000

unfoldable pub trim_start : Chars → Chars
trim_start [] = []
trim_start (c ∷ s) = let rest = trim_start s in if is_whitespace c then rest else c ∷ s

-- A character before what is left of the rest.
abbrev pub before_trimmed : Char → Chars → Chars
before_trimmed c [] = if is_whitespace c then [] else c ∷ []
before_trimmed c (d ∷ s) = c ∷ d ∷ s

unfoldable pub trim_end : Chars → Chars
trim_end [] = []
trim_end (c ∷ s) = before_trimmed c (trim_end s)

unfoldable pub trim : Chars → Chars
trim s = trim_end (trim_start s)

-- `trim_start_matches` with one character, given by its code.
unfoldable pub trim_start_matches : ℕ → Chars → Chars
trim_start_matches n [] = []
trim_start_matches n (c ∷ s) =
    let rest = trim_start_matches n s in if eqb (code c) n then rest else c ∷ s

-- `strip_prefix`
unfoldable pub strip : Chars → Chars → Option Chars
strip [] s = some s
strip (c ∷ p) [] = none
strip (c ∷ p) (d ∷ s) = let rest = strip p s in if eqb (code c) (code d) then rest else none

abbrev pub after : Char → Option (Chars × Chars) → Option (Chars × Chars)
after c none = none
after c (some (s, t)) = some (c ∷ s, t)

abbrev pub found : Option Chars → Option (Chars × Chars) → Option (Chars × Chars)
found none later = later
found (some rest) later = some ([], rest)

-- The parts before and after the first occurrence of the pattern.
unfoldable pub split_once : Chars → Chars → Option (Chars × Chars)
split_once pattern [] = found (strip pattern []) none
split_once pattern (c ∷ s) = found (strip pattern (c ∷ s)) (after c (split_once pattern s))

abbrev pub onto : Char → List Chars → List Chars
onto c [] = (c ∷ []) ∷ []
onto c (part ∷ parts) = (c ∷ part) ∷ parts

-- `split` at each occurrence of a character, given by its code.
unfoldable pub split : ℕ → Chars → List Chars
split n [] = [] ∷ []
split n (c ∷ s) = let parts = split n s in if eqb (code c) n then [] ∷ parts else onto c parts
