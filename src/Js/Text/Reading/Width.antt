-- ===== src/Js/Text/Reading/Width.antt =====
-- The width of padded decimal digits.
use Prim.Native.String.{◌∷◌, count}
use text.Mathlib.TextLemmas.{length-cons}
use p_loadtesting.Prelude.{
  ℕ, zero, suc, ◌+◌, ◌-◌, ◌*◌, ◌/◌, ◌%◌, ◌≤◌, ◌<◌, Char, String, ◌≡◌, refl, arith, ltb, ltb→lt,
  lt→ltb, Bool-cases, inl, inr,
}
use p_loadtesting.Js.Text.{digit, decimal_from, decimal, repeated, pad_start, utf16, utf16_length}
use p_loadtesting.Js.Text.Reading.{code-digit}

-- A text of at most so many characters, which have one UTF-16 unit each.
record IsNarrow (width : ℕ) (s : String) : Type 0 where
  units : utf16_length s ≡ count s
  narrow : count s ≤ width

digit-IsNarrow :
    (width d : ℕ) (s : String) → d < 10 → IsNarrow width s → IsNarrow (suc width) (digit d ∷ s)
unfolding utf16_length utf16
digit-IsNarrow width d s h n = record {
  units = ground (arith, code-digit d h, n.units, length-cons (digit d) s);
  narrow = omega (arith, n.narrow, length-cons (digit d) s);
}

wider-IsNarrow : (width more : ℕ) (s : String) → IsNarrow width s → IsNarrow (more + width) s
wider-IsNarrow width more s n = record { units = n.units; narrow = omega (arith, n.narrow) }

-- 10 to the power of one more
abbrev tens : ℕ → ℕ
tens zero = 10
tens (suc k) = tens k * 10

decimal_from-IsNarrow :
    (fuel k n width : ℕ) (s : String)
    → n < tens k
    → IsNarrow width s
    → IsNarrow (suc k + width) (decimal_from fuel n s)
unfolding decimal_from
decimal_from-IsNarrow zero k n width s h w = wider-IsNarrow width (suc k) s w
decimal_from-IsNarrow (suc fuel) zero n width s h w =
    let longer = digit-IsNarrow width n s h w in
    rw (lt→ltb n 10 h) (record { units = longer.units; narrow = omega (arith, longer.narrow) })
decimal_from-IsNarrow (suc fuel) (suc k) n width s h w = elim (Bool-cases (ltb n 10)) [
  | inl one ↦
      let longer = digit-IsNarrow width n s (ltb→lt n 10 one) w in
      rw one (record { units = longer.units; narrow = omega (arith, longer.narrow) })
  | inr more ↦
      let later =
        decimal_from-IsNarrow fuel k (n / 10) (suc width) (digit (n % 10) ∷ s) (omega arith)
          (digit-IsNarrow width (n % 10) s (omega arith) w) in
      rw more (record { units = later.units; narrow = omega (arith, later.narrow) })
]

count-repeated : (n : ℕ) (fill : Char) (s : String) → count (repeated n fill s) ≡ n + count s
unfolding repeated
count-repeated zero fill s = omega arith
count-repeated (suc n) fill s =
    omega (arith, length-cons fill (repeated n fill s), count-repeated n fill s)

-- Six digits, for a number of at most six.
pub count-pad_start : (n : ℕ) → n < 1_000_000 → count (pad_start 6 "0" (decimal n)) ≡ 6
unfolding pad_start decimal
count-pad_start n h =
    let empty : IsNarrow 0 "" = record { units = refl; narrow = omega arith } in
    let w = decimal_from-IsNarrow (suc n) 5 n 0 "" (omega arith) empty in
    omega (arith, count-repeated (6 - utf16_length (decimal n)) "0" (decimal n), w.units, w.narrow)
