-- ===== src/Prelude/Text.antt =====
-- `str::strip_prefix`, on the characters of a text.
use Prim.Native.Char.{code}
use Prim.Native.String.{String, ◌++◌ as ◌<>◌}
use mathlib.Core.Path.{◌≡◌, sym, ap, ap₂}
use mathlib.Core.Logic.{◌↔◌, inl, inr}
use mathlib.Core.Option.{Option, none, some}
use text.Mathlib.TextEquality.{Char-path}
use text.Mathlib.TextLemmas.{
  nil-append, cons-append, nil≢cons, head-eq_of_cons-eq, tail-eq_of_cons-eq,
}
use ai_assistant.Prelude.Tests.{eqb, eqb_iff, Bool-cases, if◌then◌else◌}

unfoldable pub strip_prefix : String → String → Option String
strip_prefix String.[] s = some s
strip_prefix (String.◌∷◌ c p) String.[] = none
strip_prefix (String.◌∷◌ c p) (String.◌∷◌ d s) =
    if eqb (code c) (code d) then strip_prefix p s else none

pub strip_prefix_iff : (p s r : String) → (strip_prefix p s ≡ some r) ↔ (s ≡ p <> r)
unfolding strip_prefix
strip_prefix_iff String.[] s r = rw nil-append (λ h. cc, λ e. ap some e)
strip_prefix_iff (String.◌∷◌ c p) String.[] r = rw cons-append (λ h. cc, λ h. absurd (nil≢cons h))
strip_prefix_iff (String.◌∷◌ c p) (String.◌∷◌ d s) r = elim (Bool-cases (eqb (code c) (code d))) [
  | inl alike ↦
      let same : c ≡ d = Char-path c d ((eqb_iff _ _).0 alike) in
      let (to, from) = strip_prefix_iff p s r in
      rw (alike, cons-append)
        (λ h. ap₂ String.◌∷◌ (sym same) (to h), λ h. from (tail-eq_of_cons-eq h))
  | inr unlike ↦
      rw (unlike, cons-append)
        (
          (λ h. cc),
          λ h.
              let alike = (eqb_iff (code c) (code d)).1 (ap code (sym (head-eq_of_cons-eq h))) in
              cc,
        )
]
