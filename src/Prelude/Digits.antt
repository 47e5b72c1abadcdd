-- ===== src/Prelude/Digits.antt =====
-- Decimal numbers are told apart by their digits.
use Prim.Native.Nat.{ℕ, zero, suc, ◌+◌, ◌-◌, ◌*◌, ◌/◌, ◌%◌, ◌<◌, ◌≤◌}
use Prim.Native.Char.{code}
use mathlib.Core.Path.{◌≡◌, refl, ap, sym, ◌∙◌}
use mathlib.Core.List.{[], ◌∷◌, ◌++◌}
use mathlib.Core.Bool.{false}
use mathlib.Core.Logic.{inl, inr}
use native.Mathlib.Omega.{arith}
use ai_assistant.Prelude.Tests.{ltb, ltb→lt, Bool-cases}
use ai_assistant.Prelude.Str.{Chars, chars, chars-append}
use ai_assistant.Prelude.Decimal.{digit, digits, show_ℕ}

-- The number that the digits spell, after those that spell `acc`.
read : ℕ → Chars → ℕ
read acc [] = acc
read acc (c ∷ s) = read (acc * 10 + (code c - b'0')) s

read-append : (acc : ℕ) (s t : Chars) → read acc (s ++ t) ≡ read (read acc s) t
unfolding read
read-append acc [] t = refl
read-append acc (c ∷ s) t = read-append (acc * 10 + (code c - b'0')) s t

read-digit : (acc d : ℕ) → d < 10 → read acc (chars (digit d)) ≡ acc * 10 + d
unfolding read digit chars
read-digit acc zero h = omega arith
read-digit acc (suc zero) h = refl
read-digit acc (suc (suc zero)) h = refl
read-digit acc (suc (suc (suc zero))) h = refl
read-digit acc (suc (suc (suc (suc zero)))) h = refl
read-digit acc (suc (suc (suc (suc (suc zero))))) h = refl
read-digit acc (suc (suc (suc (suc (suc (suc zero)))))) h = refl
read-digit acc (suc (suc (suc (suc (suc (suc (suc zero))))))) h = refl
read-digit acc (suc (suc (suc (suc (suc (suc (suc (suc zero)))))))) h = refl
read-digit acc (suc (suc (suc (suc (suc (suc (suc (suc (suc zero))))))))) h = refl
read-digit acc (suc (suc (suc (suc (suc (suc (suc (suc (suc (suc d)))))))))) h =
    absurd (omega (arith, h))

ltb-false : (a b : ℕ) → ltb a b ≡ false → b ≤ a
ltb-false a b h = ground (arith, h)

read-digits : (f n : ℕ) → n < f → read 0 (chars (digits f n)) ≡ n
unfolding digits
read-digits zero n h = absurd (omega (arith, h))
read-digits (suc f) n h = elim (Bool-cases (ltb n 10)) [
  | inl small ↦ rw small (read-digit 0 n (ltb→lt n 10 small) ∙ omega arith)
  | inr large ↦
      let ten : 10 ≤ n = ltb-false n 10 large in
      let smaller : n / 10 < f = omega (arith, h, ten) in
      rw
        (
          large,
          chars-append (digits f (n / 10)) (digit (n % 10)),
          read-append 0 (chars (digits f (n / 10))) (chars (digit (n % 10))),
          read-digits f (n / 10) smaller,
          read-digit (n / 10) (n % 10) (omega arith),
        )
        (omega arith)
]

pub show_ℕ-injective : (m n : ℕ) → show_ℕ m ≡ show_ℕ n → m ≡ n
unfolding show_ℕ
show_ℕ-injective m n h =
    sym (read-digits (suc m) m (omega arith))
    ∙ ap (λ s. read 0 (chars s)) h
    ∙ read-digits (suc n) n (omega arith)
