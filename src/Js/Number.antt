-- ===== src/Js/Number.antt =====
-- The numbers of JavaScript (IEEE doubles), as an interface: the operations that the scripts use,
-- with laws of the ECMAScript language on the whole numbers that a double holds exactly.
use Prim.Native.Nat.{min}
use p_loadtesting.Prelude.{
  ℕ, ◌+◌, ◌*◌, ◌^◌, ◌<◌, String, ◌≡◌, ◌↔◌, Bool, true, false, not, ◌&&◌, ◌==◌, ltb, leb,
}
use p_loadtesting.Js.Text.{decimal}

-- Number.MAX_SAFE_INTEGER + 1
abbrev pub safe : ℕ
safe = 2 ^ 53

pub record JsNumber (Num : Type 0) : Type 0 where
  pub nan : Num
  -- a numeric literal
  pub of_ℕ : ℕ → Num
  pub add : Num → Num → Num
  pub mul : Num → Num → Num
  -- `===`, `<` and `<=`, which are false at NaN
  pub eq : Num → Num → Bool
  pub lt : Num → Num → Bool
  pub le : Num → Num → Bool
  -- Number.isFinite
  pub is_finite : Num → Bool
  -- Number(text) and String(number)
  pub parse : String → Num
  pub show : Num → String
  -- parseFloat(text) and number.toFixed(digits)
  pub parse_float : String → Num
  pub to_fixed : ℕ → Num → String
  -- the end of `array.slice(0, x)` in an array of a length
  pub slice_end : Num → ℕ → ℕ
  pub is_finite-of_ℕ : (n : ℕ) → n < safe → is_finite (of_ℕ n) ≡ true
  pub eq-of_ℕ : (m n : ℕ) → m < safe → n < safe → eq (of_ℕ m) (of_ℕ n) ≡ (m == n)
  pub lt-of_ℕ : (m n : ℕ) → m < safe → n < safe → lt (of_ℕ m) (of_ℕ n) ≡ ltb m n
  pub le-of_ℕ : (m n : ℕ) → m < safe → n < safe → le (of_ℕ m) (of_ℕ n) ≡ leb m n
  pub add-of_ℕ : (m n : ℕ) → m + n < safe → add (of_ℕ m) (of_ℕ n) ≡ of_ℕ (m + n)
  pub mul-of_ℕ : (m n : ℕ) → m * n < safe → mul (of_ℕ m) (of_ℕ n) ≡ of_ℕ (m * n)
  pub parse-decimal : (n : ℕ) → n < safe → parse (decimal n) ≡ of_ℕ n
  pub show-of_ℕ : (n : ℕ) → n < safe → show (of_ℕ n) ≡ decimal n
  pub slice_end-of_ℕ : (n len : ℕ) → n < safe → slice_end (of_ℕ n) len ≡ min n len
  -- the order of the numbers other than NaN
  pub le_of_lt : (x y : Num) → lt x y ≡ true → le x y ≡ true
  pub le_of_not_lt :
      (x y : Num) → is_finite x ≡ true → is_finite y ≡ true → lt x y ≡ false → le y x ≡ true
  pub le_trans : (x y z : Num) → le x y ≡ true → le y z ≡ true → le x z ≡ true
  -- Only the two zeros are printed as "0".
  pub ne_of_lt : (x y : Num) → lt x y ≡ true → eq y x ≡ false
  pub show-zero : (x : Num) → (show x ≡ "0") ↔ (eq x (of_ℕ 0) ≡ true)

module _ {Num : Type 0} ⦃num : JsNumber Num⦄ where
  -- A number counts as false when it is a zero or NaN.
  abbrev pub is_truthy : Num → Bool
  is_truthy x = num.eq x x && not (num.eq x (num.of_ℕ 0))

  -- `x || y` on numbers
  abbrev pub or_number : Num → Num → Num
  or_number x y = elim (is_truthy x) [ true ↦ x | _ ↦ y ]
