-- ===== src/Js/Text/Reading.antt =====
-- Reading back the decimal digits of a whole number.
pub mod Width
use Prim.Native.String.{[], ◌∷◌}
use p_loadtesting.Prelude.{
  ℕ, zero, suc, ◌+◌, ◌-◌, ◌*◌, ◌/◌, ◌%◌, ◌<◌, code, String, ◌≡◌, refl, ap, ◌∙◌, true, ◌&&◌, Option,
  none, some, arith, leb, ltb, ◌==◌, ==_iff, Bool-cases, inl, inr, ltb→lt, if◌then◌else◌,
  holds_below, holds_below-at,
}
use p_loadtesting.Js.Text.{digit, decimal_from, decimal}

digit_table : holds_below (λ d. code (digit d) == d + 48) 10 ≡ true
unfolding holds_below digit
digit_table = refl

code-digit : (d : ℕ) → d < 10 → code (digit d) ≡ d + 48
code-digit d h = (==_iff _ _).0 (holds_below-at (λ e. code (digit e) == e + 48) 10 d h digit_table)

unfoldable pub read_from : ℕ → String → Option ℕ
read_from acc [] = some acc
read_from acc (c ∷ s) =
    if leb 48 (code c) && leb (code c) 57 then read_from (acc * 10 + (code c - 48)) s else none

read_from-digit :
    (acc d : ℕ) (s : String) → d < 10 → read_from acc (digit d ∷ s) ≡ read_from (acc * 10 + d) s
unfolding read_from
read_from-digit acc d s h = ground (arith, code-digit d h)

read_from-decimal_from :
    (fuel n : ℕ) (s : String) → n < fuel → read_from 0 (decimal_from fuel n s) ≡ read_from n s
unfolding decimal_from
read_from-decimal_from zero n s h = absurd (omega arith)
read_from-decimal_from (suc fuel) n s h = elim (Bool-cases (ltb n 10)) [
  | inl one ↦
      rw one (read_from-digit 0 n s (ltb→lt n 10 one) ∙ ap (λ k. read_from k s) (omega arith))
  | inr more ↦ rw more (
      read_from-decimal_from fuel (n / 10) (digit (n % 10) ∷ s) (ground arith)
      ∙ read_from-digit (n / 10) (n % 10) s (omega arith)
      ∙ ap (λ k. read_from k s) (omega arith))
]

-- The digits of a whole number read back as that number.
pub read_from-decimal : (n : ℕ) → read_from 0 (decimal n) ≡ some n
unfolding decimal read_from
read_from-decimal n = read_from-decimal_from (suc n) n [] (omega arith)
