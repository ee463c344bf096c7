-- ===== src/Js/Text/Decimal.antt =====
-- Laws of the decimal digits of a whole number.
use Prim.Native.String.{[], ◌∷◌, ◌++◌}
use text.Mathlib.TextLemmas.{append_cancel_right, cons≢nil}
use p_loadtesting.Prelude.{
  ℕ, zero, suc, ◌/◌, ◌%◌, Char, String, ◌≡◌, ◌≢◌, Bool-cases, ltb, inl, inr,
}
use p_loadtesting.Js.Text.{digit, decimal_from, decimal}

decimal_from-cons : (fuel n : ℕ) (d : Char) (acc : String) → decimal_from fuel n (d ∷ acc) ≢ []
unfolding decimal_from
decimal_from-cons zero n d acc e = cons≢nil e
decimal_from-cons (suc fuel) n d acc e = elim (Bool-cases (ltb n 10)) [
  | inl one ↦ cons≢nil (rw one at e)
  | inr more ↦ decimal_from-cons fuel (n / 10) (digit (n % 10)) (d ∷ acc) (rw more at e)
]

-- A whole number has at least one digit.
pub decimal-ne-nil : (n : ℕ) → decimal n ≢ []
unfolding decimal decimal_from
decimal-ne-nil n e = elim (Bool-cases (ltb n 10)) [
  | inl one ↦ cons≢nil (rw one at e)
  | inr more ↦ decimal_from-cons n (n / 10) (digit (n % 10)) [] (rw more at e)
]

pub append-s-eq-0s : (s : String) → s ++ "s" ≡ "0s" → s ≡ "0"
append-s-eq-0s s e = append_cancel_right s "0" "s" e
