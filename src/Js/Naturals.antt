-- ===== src/Js/Naturals.antt =====
-- A small instance of the interface of numbers, for tests and examples: the whole numbers and NaN,
-- where `parse` reads texts of decimal digits.
use Prim.Native.Nat.{min}
use Prim.Native.String.{◌++◌}
use p_loadtesting.Prelude.{
  zero, suc, ℕ, ◌+◌, ◌*◌, String, ◌≡◌, refl, ap, ◌↔◌, Bool, true, false, Option, none, some, arith,
  leb, ltb, ◌==◌, ==_iff, eq_iff,
}
use p_loadtesting.Js.Number.{JsNumber}
use p_loadtesting.Js.Text.{decimal}
use p_loadtesting.Js.Text.Reading.{read_from, read_from-decimal}

abbrev pub show_natural : Option ℕ → String
show_natural none = "NaN"
show_natural (some n) = decimal n

abbrev compare_by : (ℕ → ℕ → Bool) → Option ℕ → Option ℕ → Bool
compare_by p (some m) (some n) = p m n
compare_by p _ _ = false

abbrev combine : (ℕ → ℕ → ℕ) → Option ℕ → Option ℕ → Option ℕ
combine f (some m) (some n) = some (f m n)
combine f _ _ = none

abbrev is_some : Option ℕ → Bool
is_some none = false
is_some (some n) = true

decimal-eq-0 : (n : ℕ) → decimal n ≡ "0" → n ≡ 0
unfolding read_from
decimal-eq-0 n e = cc (read_from-decimal n, ap (read_from 0) e)

pub show_natural-zero_iff :
    (x : Option ℕ) → (show_natural x ≡ "0") ↔ (compare_by ◌==◌ x (some 0) ≡ true)
unfolding decimal
show_natural-zero_iff none = ground (arith, eq_iff "NaN" "0")
show_natural-zero_iff (some n) =
    (λ e. (==_iff n 0).1 (decimal-eq-0 n e), λ e. ap decimal ((==_iff n 0).0 e))

pub lt-ne : (x y : Option ℕ) → compare_by ltb x y ≡ true → compare_by ◌==◌ y x ≡ false
lt-ne (some m) (some n) h = ground arith
lt-ne (some m) none h = cc
lt-ne none y h = cc

abbrev slice_to : Option ℕ → ℕ → ℕ
slice_to none len = 0
slice_to (some n) len = min n len

abbrev zeros : ℕ → String
zeros zero = ""
zeros (suc n) = "0" ++ zeros n

abbrev fixed : ℕ → Option ℕ → String
fixed zero x = show_natural x
fixed (suc d) none = "NaN"
fixed (suc d) (some n) = decimal n ++ "." ++ zeros (suc d)

pub le_of_lt : (x y : Option ℕ) → compare_by ltb x y ≡ true → compare_by leb x y ≡ true
le_of_lt (some m) (some n) h = ground arith
le_of_lt (some m) none h = cc
le_of_lt none y h = cc

pub le_of_not_lt :
    (x y : Option ℕ)
    → is_some x ≡ true
    → is_some y ≡ true
    → compare_by ltb x y ≡ false
    → compare_by leb y x ≡ true
le_of_not_lt (some m) (some n) hx hy h = ground arith
le_of_not_lt (some m) none hx hy h = cc
le_of_not_lt none y hx hy h = cc

pub le_trans :
    (x y z : Option ℕ)
    → compare_by leb x y ≡ true
    → compare_by leb y z ≡ true
    → compare_by leb x z ≡ true
le_trans (some m) (some n) (some k) h j = ground arith
le_trans (some m) (some n) none h j = cc
le_trans (some m) none z h j = cc
le_trans none y z h j = cc

instance abbrev pub naturals : JsNumber (Option ℕ)
naturals = record {
  nan = none;
  of_ℕ = some;
  add = combine ◌+◌;
  mul = combine ◌*◌;
  eq = compare_by ◌==◌;
  lt = compare_by ltb;
  le = compare_by leb;
  is_finite = is_some;
  parse = read_from 0;
  show = show_natural;
  parse_float = read_from 0;
  to_fixed = fixed;
  slice_end = slice_to;
  is_finite-of_ℕ = λ n h. refl;
  eq-of_ℕ = λ m n h k. refl;
  lt-of_ℕ = λ m n h k. refl;
  le-of_ℕ = λ m n h k. refl;
  add-of_ℕ = λ m n h. refl;
  mul-of_ℕ = λ m n h. refl;
  parse-decimal = λ n h. read_from-decimal n;
  show-of_ℕ = λ n h. refl;
  slice_end-of_ℕ = λ n len h. refl;
  le_of_lt = le_of_lt;
  le_of_not_lt = le_of_not_lt;
  le_trans = le_trans;
  ne_of_lt = lt-ne;
  show-zero = show_natural-zero_iff;
}
