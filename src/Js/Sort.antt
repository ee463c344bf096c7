-- ===== src/Js/Sort.antt =====
-- `Array.prototype.sort`: stable, by whether the comparison of two elements is negative. For a
-- comparison that is not consistent, ECMAScript leaves the order open.
use mathlib.Core.List.{Perm}
use mathlib.Core.List.Perm
use p_loadtesting.Prelude.{Bool, List, [], ◌∷◌, if◌then◌else◌, Bool-cases, inl, inr}

module _ {A : Type 0} (before : A → A → Bool) where
  -- Put an element that stood before all of a sorted list.
  unfoldable pub place : A → List A → List A
  place x [] = x ∷ []
  place x (y ∷ ys) = let rest = place x ys in if before y x then y ∷ rest else x ∷ y ∷ ys

  unfoldable pub sort : List A → List A
  unfolding place
  sort [] = []
  sort (x ∷ xs) = place x (sort xs)

  place-Perm : (x : A) (ys : List A) → Perm (place x ys) (x ∷ ys)
  unfolding place
  place-Perm x [] = Perm.refl (x ∷ [])
  place-Perm x (y ∷ ys) = elim (Bool-cases (before y x)) [
    | inl earlier ↦ rw earlier (Perm.trans (Perm.cons y (place-Perm x ys)) (Perm.swap x y ys))
    | inr other ↦ rw other (Perm.refl (x ∷ y ∷ ys))
  ]

  pub sort-Perm : (xs : List A) → Perm (sort xs) xs
  unfolding sort
  sort-Perm [] = Perm.refl []
  sort-Perm (x ∷ xs) = Perm.trans (place-Perm x (sort xs)) (Perm.cons x (sort-Perm xs))
