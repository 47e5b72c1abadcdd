-- ===== src/AgentLoop/Fence/Laws.antt =====
-- What `TOOL_CALL_RE` of orchestrator/src/agent_loop/protocol.rs matches.
use ai_assistant.Prelude.{
  ◌≤◌, suc, ◌≡◌, refl, ap, subst, ◌∙◌, inl, inr, ◌⊎◌, Bool, true, false, Option, none, some, [],
  ◌∷◌, ◌++◌, All, Char, code, Chars, split_once, is_whitespace, eqb, eqb_iff, is_some, length,
  arith, Option-cases, split_once-eq-some, is_some-split_once, if◌then◌else◌,
}
use text.Mathlib.TextEquality.{Char-path}
use ai_assistant.AgentLoop.Fence.{or_else, closing, group, lazy_body, blank_line}

abbrev pub IsBlank : Chars → Type 0
IsBlank = All (λ c. is_whitespace c ≡ true)

-- `s` is a blank line, the body up to the first closing fence, and that fence.
pub record Opened (s body : Chars) : Type 0 where
  pub blank : Chars
  pub rest : Chars
  pub is_blank : IsBlank blank
  pub shape : s ≡ blank ++ ("\n" ∷ (body ++ (closing ++ rest)))
  pub shortest : split_once closing (body ++ (closing ++ rest)) ≡ some (body, rest)

lazy_body-eq-some :
    (s body : Chars)
    → lazy_body s ≡ some body
    → (rest : Chars) × (split_once closing s ≡ some (body, rest))
unfolding lazy_body
lazy_body-eq-some s body h = elim (Option-cases (split_once closing s)) [
  | inl absent ↦ let h' : none ≡ some body = rw absent at h in cc
  | inr ((b, rest), e) ↦
      let h' : some b ≡ some body = rw e at h in
      let same : b ≡ body = cc in (rest, e ∙ ap (λ x. some (x, rest)) same)
]

pub or_else-eq-some :
    (first second : Option Chars) (body : Chars)
    → or_else first second ≡ some body
    → (first ≡ some body) ⊎ ((first ≡ none) × (second ≡ some body))
or_else-eq-some none second body h = inr (refl, h)
or_else-eq-some (some a) second body h = inl h

if-eq-some :
    (b : Bool) (o : Option Chars) (body : Chars)
    → (if b then o else none) ≡ some body
    → (b ≡ true) × (o ≡ some body)
if-eq-some true o body h = (refl, h)
if-eq-some false o body h = cc

pub is_some-or_else_left :
    (first second : Option Chars) → is_some first ≡ true → is_some (or_else first second) ≡ true
is_some-or_else_left none second h = cc
is_some-or_else_left (some a) second h = refl

pub is_some-or_else_right :
    (first second : Option Chars) → is_some second ≡ true → is_some (or_else first second) ≡ true
is_some-or_else_right none second h = h
is_some-or_else_right (some a) second h = refl

is_some-group : (o : Option (Chars × Chars)) → is_some o ≡ true → is_some (group o) ≡ true
is_some-group none h = cc
is_some-group (some (body, rest)) h = refl

-- A blank line with a fence after it is matched.
is_some-blank_line :
    (blank body rest : Chars)
    → IsBlank blank
    → is_some (blank_line (blank ++ ("\n" ∷ (body ++ (closing ++ rest))))) ≡ true
unfolding blank_line lazy_body
is_some-blank_line [] body rest white =
    is_some-or_else_right _ _ (is_some-group _ (is_some-split_once closing body rest))
is_some-blank_line (c ∷ blank) body rest (white, more) =
    let s = blank ++ ("\n" ∷ (body ++ (closing ++ rest))) in
    let longer : is_some (if is_whitespace c then blank_line s else none) ≡ true =
      rw white (is_some-blank_line blank body rest more) in
    is_some-or_else_left _ _ longer

pub is_some-Opened : {s body : Chars} → Opened s body → is_some (blank_line s) ≡ true
is_some-Opened o = rw o.shape (is_some-blank_line o.blank _ o.rest o.is_blank)

-- No other blank line with a fence after it is longer.
pub record Chosen (s body : Chars) : Type 0 where
  pub opened : Opened s body
  pub longest : (other : Chars) (o : Opened s other) → length o.blank ≤ length opened.blank

tail-Opened :
    (c d : Char) (s blank body rest : Chars)
    → c ∷ s ≡ d ∷ blank ++ ("\n" ∷ (body ++ (closing ++ rest)))
    → IsBlank (d ∷ blank)
    → split_once closing (body ++ (closing ++ rest)) ≡ some (body, rest)
    → (is_whitespace c ≡ true) × (s ≡ blank ++ ("\n" ∷ (body ++ (closing ++ rest))))
tail-Opened c d s blank body rest e (white, more) cut = let same : c ≡ d = cc in (rw same white, cc)

Opened-cases :
    (c : Char) (s other blank rest : Chars)
    → IsBlank blank
    → c ∷ s ≡ blank ++ ("\n" ∷ (other ++ (closing ++ rest)))
    → split_once closing (other ++ (closing ++ rest)) ≡ some (other, rest)
    → (blank ≡ [])
      ⊎ ((is_whitespace c ≡ true) × ((o : Opened s other) × (length blank ≡ suc (length o.blank))))
Opened-cases c s other [] rest white e cut = inl refl
Opened-cases c s other (d ∷ blank) rest white e cut =
    let (first, shape) = tail-Opened c d s blank other rest e white cut in
    let o : Opened s other = record {
      blank = blank;
      rest = rest;
      is_blank = white.1;
      shape = shape;
      shortest = cut;
    } in
    inr (first, (o, refl))

-- The blank line of a fence after `c` is empty, or begins with `c`.
blank-cases :
    (c : Char) (s other : Chars) (o : Opened (c ∷ s) other)
    → (o.blank ≡ [])
      ⊎ ((is_whitespace c ≡ true)
          × ((o' : Opened s other) × (length o.blank ≡ suc (length o'.blank))))
blank-cases c s other o = Opened-cases c s other o.blank o.rest o.is_blank o.shape o.shortest

if-eq-none : (b : Bool) (o : Option Chars) → (if b then o else none) ≡ none → b ≡ true → o ≡ none
if-eq-none true o h e = h
if-eq-none false o h e = cc

onto-Chosen :
    (c : Char) (s body : Chars) → is_whitespace c ≡ true → Chosen s body → Chosen (c ∷ s) body
onto-Chosen c s body white k = record {
  opened = record {
    blank = c ∷ k.opened.blank;
    rest = k.opened.rest;
    is_blank = (white, k.opened.is_blank);
    shape = ap (◌∷◌ c) k.opened.shape;
    shortest = k.opened.shortest;
  };
  longest = λ other o. elim (blank-cases c s other o) [
    | inl empty ↦ rw empty (omega arith)
    | inr (first, (o', more)) ↦ omega (arith, more, k.longest other o')
  ];
}

line_end-Chosen :
    (c : Char) (s body : Chars)
    → (if is_whitespace c then blank_line s else none) ≡ none
    → eqb (code c) b'\n' ≡ true
    → lazy_body s ≡ some body
    → Chosen (c ∷ s) body
line_end-Chosen c s body not_longer newline e =
    let same : c ≡ "\n" = Char-path c "\n" ((eqb_iff (code c) b'\n').0 newline) in
    let (rest, cut) = lazy_body-eq-some s body e in
    let whole = split_once-eq-some closing s body rest cut in
    record {
      opened = record {
        blank = [];
        rest = rest;
        is_blank = tt;
        shape = ap (λ d. d ∷ s) same ∙ ap (◌∷◌ "\n") whole;
        shortest = subst (λ x. split_once closing x ≡ some (body, rest)) whole cut;
      };
      longest = λ other o. elim (blank-cases c s other o) [
        | inl empty ↦ rw empty (omega arith)
        | inr (white, (o', more)) ↦
            let absent = if-eq-none (is_whitespace c) (blank_line s) not_longer white in
            let there : is_some (blank_line s) ≡ true = is_some-Opened o' in
            let wrong : false ≡ true = rw absent at there in cc
      ];
    }

pub blank_line-Chosen : (s body : Chars) → blank_line s ≡ some body → Chosen s body
unfolding blank_line
blank_line-Chosen [] body h = cc
blank_line-Chosen (c ∷ s) body h =
    elim (or_else-eq-some (if is_whitespace c then blank_line s else none)
      (if eqb (code c) b'\n' then lazy_body s else none) body h) [
        | inl longer ↦
            let (white, e) = if-eq-some (is_whitespace c) (blank_line s) body longer in
            onto-Chosen c s body white (blank_line-Chosen s body e)
        | inr (not_longer, ends) ↦
            let (newline, e) = if-eq-some (eqb (code c) b'\n') (lazy_body s) body ends in
            line_end-Chosen c s body not_longer newline e
      ]
