-- ===== src/Prelude/Held.antt =====
-- Entries of a dictionary keyed by numbers that are put anew or dropped: what is found, how many
-- there are, what all of them satisfy, and their sum under a measure.
use Prim.Native.Nat.{ℕ, suc, ◌+◌, ◌*◌, ◌≤◌}
use Prim.Native.String.{String}
use mathlib.Core.Path.{◌≡◌, refl}
use mathlib.Core.Bool.{false}
use mathlib.Core.List.{List, [], ◌∷◌}
use mathlib.Core.Option.{none, some}
use native.Mathlib.Omega.{arith}
use p_loadtesting.Prelude.Lists.{length, All, lookup, insert, erase}
use p_loadtesting.Prelude.Numbered.{find, put, drop}
use p_loadtesting.Prelude.Tests.{◌==◌, if◌then◌else◌}

module _ {ℓ} {Entry : Type ℓ} where
  pub find-put :
      (d c : ℕ) (x : Entry) (xs : List (ℕ × Entry))
      → find d (put c x xs) ≡ (if c == d then some x else find d xs)
  find-put d c x [] = refl
  find-put d c x (y ∷ xs) = ground (arith, find-put d c x xs)

  -- No key is listed twice.
  abbrev pub IsUnique : List (ℕ × Entry) → Type ℓ
  IsUnique [] = Unit
  IsUnique ((k, x) ∷ xs) = (find k xs ≡ none) × IsUnique xs

  pub put-IsUnique :
      (c : ℕ) (x : Entry) (xs : List (ℕ × Entry)) → IsUnique xs → IsUnique (put c x xs)
  put-IsUnique c x [] h = (refl, tt)
  put-IsUnique c x (y ∷ xs) h = ground (arith, put-IsUnique c x xs h.1, find-put y.0 c x xs)

  pub find-drop_other :
      (d c : ℕ) (xs : List (ℕ × Entry)) → (c == d) ≡ false → find d (drop c xs) ≡ find d xs
  find-drop_other d c [] h = refl
  find-drop_other d c (y ∷ xs) h = ground (arith, find-drop_other d c xs h)

  pub find-drop_self : (c : ℕ) (xs : List (ℕ × Entry)) → IsUnique xs → find c (drop c xs) ≡ none
  find-drop_self c [] h = refl
  find-drop_self c (y ∷ xs) h = ground (arith, find-drop_self c xs h.1)

  find-drop-none : (d c : ℕ) (xs : List (ℕ × Entry)) → find d xs ≡ none → find d (drop c xs) ≡ none
  find-drop-none d c [] h = refl
  find-drop-none d c (y ∷ xs) h = ground (arith, find-drop-none d c xs)

  pub drop-IsUnique : (c : ℕ) (xs : List (ℕ × Entry)) → IsUnique xs → IsUnique (drop c xs)
  drop-IsUnique c [] h = tt
  drop-IsUnique c (y ∷ xs) h = ground (arith, drop-IsUnique c xs h.1, find-drop-none y.0 c xs)

  pub length-put :
      (c : ℕ) (x y : Entry) (xs : List (ℕ × Entry))
      → find c xs ≡ some y
      → length (put c x xs) ≡ length xs
  length-put c x y [] e = cc
  length-put c x y (z ∷ xs) e = ground (arith, length-put c x y xs)

  pub length-put_new :
      (c : ℕ) (x : Entry) (xs : List (ℕ × Entry))
      → find c xs ≡ none
      → length (put c x xs) ≡ suc (length xs)
  length-put_new c x [] e = refl
  length-put_new c x (z ∷ xs) e = ground (arith, length-put_new c x xs)

  pub length-drop :
      (c : ℕ) (y : Entry) (xs : List (ℕ × Entry))
      → find c xs ≡ some y
      → suc (length (drop c xs)) ≡ length xs
  length-drop c y [] e = cc
  length-drop c y (z ∷ xs) e = ground (arith, length-drop c y xs)

module _ {ℓ κ} {Entry : Type ℓ} (P : Entry → Type κ) where
  abbrev pub Each : List (ℕ × Entry) → Type κ
  Each xs = All (λ e. P e.1) xs

  pub put-Each : (c : ℕ) (x : Entry) (xs : List (ℕ × Entry)) → Each xs → P x → Each (put c x xs)
  put-Each c x [] h p = (p, tt)
  put-Each c x (y ∷ xs) h p = ground (arith, put-Each c x xs h.1 p)

  pub drop-Each : (c : ℕ) (xs : List (ℕ × Entry)) → Each xs → Each (drop c xs)
  drop-Each c [] h = tt
  drop-Each c (y ∷ xs) h = ground (arith, drop-Each c xs h.1)

  pub find-Each : (c : ℕ) (x : Entry) (xs : List (ℕ × Entry)) → Each xs → find c xs ≡ some x → P x
  find-Each c x [] h e = cc
  find-Each c x (y ∷ xs) h e = ground (arith, find-Each c x xs h.1)

module _ {ℓ} {Entry : Type ℓ} (measure : Entry → ℕ) where
  abbrev pub sum : List (ℕ × Entry) → ℕ
  sum [] = 0
  sum (y ∷ xs) = measure y.1 + sum xs

  pub sum-put :
      (c : ℕ) (x y : Entry) (xs : List (ℕ × Entry))
      → find c xs ≡ some y
      → sum (put c x xs) + measure y ≡ sum xs + measure x
  sum-put c x y [] e = cc
  sum-put c x y (z ∷ xs) e = ground (arith, sum-put c x y xs)

  pub sum-drop :
      (c : ℕ) (y : Entry) (xs : List (ℕ × Entry))
      → find c xs ≡ some y
      → sum (drop c xs) + measure y ≡ sum xs
  sum-drop c y [] e = cc
  sum-drop c y (z ∷ xs) e = ground (arith, sum-drop c y xs)

  pub sum-le :
      (bound : ℕ) (xs : List (ℕ × Entry))
      → All (λ e. measure e.1 ≤ bound) xs
      → sum xs ≤ length xs * bound
  sum-le bound [] h = omega arith
  sum-le bound (y ∷ xs) h = omega (arith, sum-le bound xs h.1, h.0)

module _ {ℓ κ} {Entry : Type ℓ} (P : Entry → Type κ) where
  -- The same of a dictionary keyed by texts.
  abbrev pub Every : List (String × Entry) → Type κ
  Every dict = All (λ e. P e.1) dict

  pub insert-Every :
      (key : String) (x : Entry) (dict : List (String × Entry))
      → Every dict
      → P x
      → Every (insert key x dict)
  insert-Every key x [] h p = (p, tt)
  insert-Every key x (y ∷ dict) h p = ground (arith, insert-Every key x dict h.1 p)

  pub erase-Every :
      (key : String) (dict : List (String × Entry)) → Every dict → Every (erase key dict)
  erase-Every key [] h = tt
  erase-Every key (y ∷ dict) h = ground (arith, erase-Every key dict h.1)

  pub lookup-Every :
      (key : String) (x : Entry) (dict : List (String × Entry))
      → Every dict
      → lookup key dict ≡ some x
      → P x
  lookup-Every key x [] h e = cc
  lookup-Every key x (y ∷ dict) h e = ground (arith, lookup-Every key x dict h.1)
