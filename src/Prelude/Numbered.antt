-- ===== src/Prelude/Numbered.antt =====
-- Dictionaries keyed by numbers, in the order of insertion as in Python: the first entry of a key
-- counts, and an assignment to a key that is there keeps its place.
use Prim.Native.Nat.{ℕ, zero, suc, ◌+◌, ◌<◌}
use mathlib.Core.Path.{◌≡◌, refl, ap}
use mathlib.Core.List.{List, [], ◌∷◌, ◌++◌}
use mathlib.Core.Option.{Option, none, some}
use native.Mathlib.Omega.{arith}
use p_loadtesting.Prelude.Lists.{length}
use p_loadtesting.Prelude.Tests.{◌==◌, if◌then◌else◌}

module _ {ℓ} {Entry : Type ℓ} where
  abbrev pub get_elem? : List Entry → ℕ → Option Entry
  get_elem? [] n = none
  get_elem? (x ∷ xs) zero = some x
  get_elem? (x ∷ xs) (suc n) = get_elem? xs n

  abbrev pub find : (key : ℕ) (dict : List (ℕ × Entry)) → Option Entry
  find key [] = none
  find key ((k, entry) ∷ dict) = let later = find key dict in if k == key then some entry else later

  abbrev pub put : (key : ℕ) (value : Entry) (dict : List (ℕ × Entry)) → List (ℕ × Entry)
  put key value [] = (key, value) ∷ []
  put key value ((k, entry) ∷ dict) =
      let later = put key value dict in if k == key then (k, value) ∷ dict else (k, entry) ∷ later

  -- `dict.pop(key, None)`
  abbrev pub drop : (key : ℕ) (dict : List (ℕ × Entry)) → List (ℕ × Entry)
  drop key [] = []
  drop key ((k, entry) ∷ dict) =
      let rest = drop key dict in if k == key then dict else (k, entry) ∷ rest

  -- Entries under consecutive keys.
  abbrev pub numbered : ℕ → List Entry → List (ℕ × Entry)
  numbered start [] = []
  numbered start (x ∷ xs) = (start, x) ∷ numbered (suc start) xs

  pub length-numbered : (start : ℕ) (xs : List Entry) → length (numbered start xs) ≡ length xs
  length-numbered start [] = refl
  length-numbered start (x ∷ xs) = ap suc (length-numbered (suc start) xs)

  -- An assignment to the key behind the last one comes last.
  pub put-numbered :
      (start key : ℕ) (value : Entry) (xs : List Entry)
      → start + length xs ≡ key
      → put key value (numbered start xs) ≡ numbered start (xs ++ value ∷ [])
  put-numbered start key value [] e = ap (λ k. (k, value) ∷ []) (omega (arith, e))
  put-numbered start key value (x ∷ xs) e = ground (arith, put-numbered (suc start) key value xs)

  pub find-numbered :
      (start n : ℕ) (xs : List Entry) → find (start + n) (numbered start xs) ≡ get_elem? xs n
  find-numbered start n [] = refl
  find-numbered start zero (x ∷ xs) = ground arith
  find-numbered start (suc n) (x ∷ xs) = ground (arith, find-numbered (suc start) n xs)

  pub find-numbered_below :
      (start key : ℕ) (xs : List Entry) → key < start → find key (numbered start xs) ≡ none
  find-numbered_below start key [] h = refl
  find-numbered_below start key (x ∷ xs) h = ground (arith, find-numbered_below (suc start) key xs)

  pub get_elem?-append :
      (xs ys : List Entry) (n : ℕ) (x : Entry)
      → get_elem? xs n ≡ some x
      → get_elem? (xs ++ ys) n ≡ some x
  get_elem?-append [] ys n x e = cc
  get_elem?-append (y ∷ xs) ys zero x e = e
  get_elem?-append (y ∷ xs) ys (suc n) x e = get_elem?-append xs ys n x e

  pub get_elem?-length :
      (xs ys : List Entry) (x : Entry) → get_elem? (xs ++ x ∷ ys) (length xs) ≡ some x
  get_elem?-length [] ys x = refl
  get_elem?-length (y ∷ xs) ys x = get_elem?-length xs ys x
