-- ===== src/Prelude/Search.antt =====
-- Laws of `strip` and `split_once`: what a search in a text finds.
use Prim.Native.Char.{Char, code}
use mathlib.Core.Path.{◌≡◌, refl, sym, ap, ◌∙◌}
use mathlib.Core.Logic.{inl, inr, ◌⊎◌}
use mathlib.Core.Bool.{true, false}
use mathlib.Core.List.{[], ◌∷◌, ◌++◌}
use mathlib.Core.Option.{Option, none, some}
use native.Mathlib.Omega.{arith}
use text.Mathlib.TextEquality.{Char-path}
use ai_assistant.Prelude.Tests.{eqb, eqb_iff, Bool-cases, is_some}
use ai_assistant.Prelude.Lists.{All}
use ai_assistant.Prelude.Str.{Chars, strip, split_once, found, after}

-- A pattern in which the character `n` does not stand.
abbrev pub Lacks : Char → Chars → Type 0
Lacks n = All (λ c. eqb (code c) (code n) ≡ false)

pub strip-append_self : (p t : Chars) → strip p (p ++ t) ≡ some t
unfolding strip
strip-append_self [] t = refl
strip-append_self (c ∷ p) t = ground (arith, strip-append_self p t)

-- What is no prefix of a text is none of the text before a character that it lacks.
strip-append_none :
    (n : Char) (p s t : Chars) → Lacks n p → strip p s ≡ none → strip p (s ++ n ∷ t) ≡ none
unfolding strip
strip-append_none n [] s t l h = cc
strip-append_none n (c ∷ p) [] t (l, ls) h = ground (arith)
strip-append_none n (c ∷ p) (d ∷ s) t (l, ls) h = elim (Bool-cases (eqb (code c) (code d))) [
  | inl same ↦ let h' : strip p s ≡ none = rw same at h in rw same (strip-append_none n p s t ls h')
  | inr other ↦ rw other refl
]

strip-cons_none :
    (n : Char) (p : Chars) (c : Char) (s t : Chars)
    → Lacks n p
    → strip (n ∷ p) (c ∷ s) ≡ none
    → strip (n ∷ p) (c ∷ (s ++ n ∷ t)) ≡ none
unfolding strip
strip-cons_none n p c s t l h = elim (Bool-cases (eqb (code n) (code c))) [
  | inl same ↦ let h' : strip p s ≡ none = rw same at h in rw same (strip-append_none n p s t l h')
  | inr other ↦ rw other refl
]

found-eq-none :
    (o : Option Chars) (later : Option (Chars × Chars))
    → found o later ≡ none
    → (o ≡ none) × (later ≡ none)
found-eq-none none later h = (refl, h)
found-eq-none (some rest) later h = cc

after-eq-none : (c : Char) (o : Option (Chars × Chars)) → after c o ≡ none → o ≡ none
after-eq-none c none h = refl
after-eq-none c (some p) h = cc

-- Where the pattern is not in `s`, and its first character not in the rest of it, its first
-- occurrence in `s` and the pattern is the pattern itself.
pub split_once-append :
    (n : Char) (p s t : Chars)
    → Lacks n p
    → split_once (n ∷ p) s ≡ none
    → split_once (n ∷ p) (s ++ (n ∷ p ++ t)) ≡ some (s, t)
unfolding split_once
split_once-append n p [] t l h = rw (strip-append_self (n ∷ p) t) refl
split_once-append n p (c ∷ s) t l h =
    let (here, later) = found-eq-none (strip (n ∷ p) (c ∷ s)) _ h in
    let ih = split_once-append n p s t l (after-eq-none c _ later) in
    rw (strip-cons_none n p c s (p ++ t) l here, ih) refl

pub strip-eq-some : (p s r : Chars) → strip p s ≡ some r → s ≡ p ++ r
unfolding strip
strip-eq-some [] s r h = ground (arith, h)
strip-eq-some (c ∷ p) [] r h = cc
strip-eq-some (c ∷ p) (d ∷ s) r h = elim (Bool-cases (eqb (code c) (code d))) [
  | inl alike ↦
      let same : c ≡ d = Char-path c d ((eqb_iff (code c) (code d)).0 alike) in
      let h' : strip p s ≡ some r = rw alike at h in rw same (ap (◌∷◌ d) (strip-eq-some p s r h'))
  | inr unlike ↦ let h' : none ≡ some r = rw unlike at h in cc
]

pub found-eq-some :
    (o : Option Chars) (later : Option (Chars × Chars)) (a b : Chars)
    → found o later ≡ some (a, b)
    → ((a ≡ []) × (o ≡ some b)) ⊎ (later ≡ some (a, b))
found-eq-some none later a b h = inr h
found-eq-some (some rest) later a b h = inl (cc, cc)

pub after-eq-some :
    (c : Char) (o : Option (Chars × Chars)) (a b : Chars)
    → after c o ≡ some (a, b)
    → (a' : Chars) × (a ≡ c ∷ a') × (o ≡ some (a', b))
after-eq-some c none a b h = cc
after-eq-some c (some (s, t)) a b h = (s, cc, cc)

-- What the search finds is there.
pub split_once-eq-some : (p s a b : Chars) → split_once p s ≡ some (a, b) → s ≡ a ++ (p ++ b)
unfolding split_once
split_once-eq-some p [] a b h = elim (found-eq-some (strip p []) none a b h) [
  | inl (empty, here) ↦ strip-eq-some p [] b here ∙ ap (λ x. x ++ (p ++ b)) (sym empty)
  | inr later ↦ cc
]
split_once-eq-some p (c ∷ s) a b h = elim (found-eq-some (strip p (c ∷ s)) _ a b h) [
  | inl (empty, here) ↦ strip-eq-some p (c ∷ s) b here ∙ ap (λ x. x ++ (p ++ b)) (sym empty)
  | inr later ↦
      let (a', first, rest) = after-eq-some c (split_once p s) a b later in
      ap (◌∷◌ c) (split_once-eq-some p s a' b rest) ∙ ap (λ x. x ++ (p ++ b)) (sym first)
]

is_some-found :
    (o : Option Chars) (later : Option (Chars × Chars))
    → is_some later ≡ true
    → is_some (found o later) ≡ true
is_some-found none later h = h
is_some-found (some rest) later h = refl

is_some-after :
    (c : Char) (o : Option (Chars × Chars)) → is_some o ≡ true → is_some (after c o) ≡ true
is_some-after c none h = cc
is_some-after c (some p) h = refl

is_some-split_once_here : (p s r : Chars) → strip p s ≡ some r → is_some (split_once p s) ≡ true
unfolding split_once
is_some-split_once_here p [] r h = rw h refl
is_some-split_once_here p (c ∷ s) r h = rw h refl

-- A pattern that is there is found.
pub is_some-split_once : (p s t : Chars) → is_some (split_once p (s ++ (p ++ t))) ≡ true
unfolding split_once
is_some-split_once p [] t = is_some-split_once_here p (p ++ t) t (strip-append_self p t)
is_some-split_once p (c ∷ s) t = is_some-found _ _ (is_some-after c _ (is_some-split_once p s t))
