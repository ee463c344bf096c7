-- ===== src/Prelude/Lists.antt =====
-- Lists measured by native numbers, predicates on lists, and association lists keyed by texts.
use Prim.Native.Nat.{ℕ, zero, suc, ◌+◌}
use Prim.Native.String.{String}
use mathlib.Core.Path.{◌≡◌, refl}
use mathlib.Core.Bool.{Bool}
use mathlib.Core.List.{List, [], ◌∷◌, ◌++◌}
use mathlib.Core.Option.{Option, none, some}
use native.Mathlib.Omega.{arith}
use text.Mathlib.Text.{◌==◌ as str_eq}
use text.Mathlib.TextEquality.{eq_iff}
use p_loadtesting.Prelude.Tests.{if◌then◌else◌}

module _ {ℓ} {A : Type ℓ} where
  abbrev pub length : List A → ℕ
  length [] = 0
  length (x ∷ xs) = suc (length xs)

  abbrev pub take : ℕ → List A → List A
  take zero xs = []
  take (suc n) [] = []
  take (suc n) (x ∷ xs) = x ∷ take n xs

  pub length-append : (xs ys : List A) → length (xs ++ ys) ≡ length xs + length ys
  length-append [] ys = omega arith
  length-append (x ∷ xs) ys = omega (arith, length-append xs ys)

  abbrev pub keep : (A → Bool) → List A → List A
  keep p [] = []
  keep p (x ∷ xs) = let rest = keep p xs in if p x then x ∷ rest else rest

module _ {ℓ κ} {A : Type ℓ} (P : A → Type κ) where
  abbrev pub All : List A → Type κ
  All [] = Unit
  All (x ∷ xs) = P x × All xs

  pub All-append : (xs ys : List A) → All xs → All ys → All (xs ++ ys)
  All-append [] ys _ k = k
  All-append (x ∷ xs) ys (p, h) k = (p, All-append xs ys h k)

-- An object or a dictionary of the program: the first entry of a key counts.
module _ {ℓ} {Entry : Type ℓ} where
  abbrev pub lookup : (key : String) (dict : List (String × Entry)) → Option Entry
  lookup key ((name, entry) ∷ dict) =
      let later = lookup key dict in if str_eq name key then some entry else later
  lookup key [] = none

  abbrev pub insert :
      (key : String) (value : Entry) (dict : List (String × Entry)) → List (String × Entry)
  insert key value ((name, entry) ∷ dict) =
      let later = insert key value dict in
      if str_eq name key then (name, value) ∷ dict else (name, entry) ∷ later
  insert key value [] = (key, value) ∷ []

  abbrev pub erase : (key : String) (dict : List (String × Entry)) → List (String × Entry)
  erase key [] = []
  erase key ((name, entry) ∷ dict) =
      let rest = erase key dict in if str_eq name key then rest else (name, entry) ∷ rest

  pub lookup-erase :
      (other key : String) (dict : List (String × Entry))
      → lookup other (erase key dict) ≡ (if str_eq key other then none else lookup other dict)
  lookup-erase other key [] = ground arith
  lookup-erase other key ((name, entry) ∷ dict) =
      ground
        (arith, lookup-erase other key dict, eq_iff name other, eq_iff name key, eq_iff key other)

  pub lookup-insert :
      (other key : String) (value : Entry) (dict : List (String × Entry))
      → lookup other (insert key value dict)
        ≡ (if str_eq key other then some value else lookup other dict)
  lookup-insert other key value ((name, entry) ∷ dict) = ground (
    arith,
    lookup-insert other key value dict,
    eq_iff name other,
    eq_iff name key,
    eq_iff key other,
  )
  lookup-insert other key value [] = refl
