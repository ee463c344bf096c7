-- ===== src/Dashboard/Order.antt =====
-- Which series `prepareSeries` of engines/jmeter/html-report/content/js/dashboard-commons.js keeps, and
-- the order of their points.
use mathlib.Core.List.{Perm}
use p_loadtesting.Prelude.{
  ℕ, suc, ◌≡◌, refl, ap, sym, ◌∙◌, Bool, true, false, not, ◌&&◌, ◌||◌, List, [], ◌∷◌, keep, str_eq,
  if◌then◌else◌, Bool-cases, inl, inr, All,
}
use p_loadtesting.Dashboard.Commons.{before_by_x}
use p_loadtesting.Dashboard.Data.{Coord, Series, Result, GraphData, Settings, Browser, each_from}
use p_loadtesting.Dashboard.Series.{filtered, only_controllers, mark, prepare_series}
use p_loadtesting.Js.Number.{JsNumber}
use p_loadtesting.Js.Sort.{sort, sort-Perm, place}
use p_loadtesting.Js.Value.{number}

module _ {Num : Type 0} ⦃num : JsNumber Num⦄ where
  -- The abscissas go down.
  abbrev pub IsDescending : List (Coord Num) → Type 0
  IsDescending [] = Unit
  IsDescending (c ∷ []) = Unit
  IsDescending (c ∷ d ∷ cs) = (num.le d.x c.x ≡ true) × IsDescending (d ∷ cs)

  -- The abscissas are numbers, not NaN or infinite.
  abbrev pub HasNumbers : List (Coord Num) → Type 0
  HasNumbers cs = All (λ c. num.is_finite c.x ≡ true) cs

  place-HasNumbers :
      (c : Coord Num) (cs : List (Coord Num))
      → num.is_finite c.x ≡ true
      → HasNumbers cs
      → HasNumbers (place before_by_x c cs)
  unfolding place
  place-HasNumbers c [] h k = (h, tt)
  place-HasNumbers c (d ∷ cs) h k = elim (Bool-cases (before_by_x d c)) [
    | inl e ↦ rw e (k.0, place-HasNumbers c cs h k.1)
    | inr e ↦ rw e (h, k)
  ]

  sort-HasNumbers : (cs : List (Coord Num)) → HasNumbers cs → HasNumbers (sort before_by_x cs)
  unfolding sort
  sort-HasNumbers [] h = tt
  sort-HasNumbers (c ∷ cs) h = place-HasNumbers c (sort before_by_x cs) h.0 (sort-HasNumbers cs h.1)

  descend :
      (c d : Coord Num) (cs : List (Coord Num))
      → num.le c.x d.x ≡ true
      → IsDescending (d ∷ cs)
      → IsDescending (place before_by_x c cs)
      → IsDescending (d ∷ place before_by_x c cs)
  unfolding place
  descend c d [] h k m = (h, tt)
  descend c d (e ∷ cs) h k m = elim (Bool-cases (before_by_x e c)) [
    | inl b ↦ rw b (k.0, rw b at m)
    | inr b ↦ rw b (h, rw b at m)
  ]

  tail-IsDescending :
      (c : Coord Num) (cs : List (Coord Num)) → IsDescending (c ∷ cs) → IsDescending cs
  tail-IsDescending c [] m = tt
  tail-IsDescending c (d ∷ cs) m = m.1

  place-IsDescending :
      (c : Coord Num) (cs : List (Coord Num))
      → num.is_finite c.x ≡ true
      → HasNumbers cs
      → IsDescending cs
      → IsDescending (place before_by_x c cs)
  unfolding place before_by_x
  place-IsDescending c [] h k m = tt
  place-IsDescending c (d ∷ cs) h k m = elim (Bool-cases (num.lt c.x d.x)) [
    | inl b ↦ rw b (
        descend c d cs (num.le_of_lt c.x d.x b) m
          (place-IsDescending c cs h k.1 (tail-IsDescending d cs m)))
    | inr b ↦ rw b (num.le_of_not_lt c.x d.x h k.0 b, m)
  ]

  sort-IsDescending : (cs : List (Coord Num)) → HasNumbers cs → IsDescending (sort before_by_x cs)
  unfolding sort
  sort-IsDescending [] h = tt
  sort-IsDescending (c ∷ cs) h =
      place-IsDescending c (sort before_by_x cs) h.0 (sort-HasNumbers cs h.1)
        (sort-IsDescending cs h.1)

  -- Series as `prepareSeries` leaves them, from an index on: the labels stay, the points are put in
  -- descending order, and the color is the index unless colors are not to be set.
  abbrev pub IsPrepared : Bool → ℕ → List (Series Num) → List (Series Num) → Type 0
  IsPrepared no_match i [] [] = Unit
  IsPrepared no_match i (a ∷ ss) (b ∷ ts) =
      (((b.label ≡ a.label) × (b.color ≡ (if no_match then a.color else number (num.of_ℕ i))))
        × (Perm b.coords a.coords × IsDescending b.coords))
      × IsPrepared no_match (suc i) ss ts
  IsPrepared no_match i _ _ = ⊥

  mark-IsPrepared :
      (no_match : Bool) (i : ℕ) (ss : List (Series Num))
      → All (λ item. HasNumbers item.coords) ss
      → IsPrepared no_match i ss (each_from i (mark no_match) ss)
  unfolding mark
  mark-IsPrepared no_match i [] h = tt
  mark-IsPrepared no_match i (a ∷ ss) h = (
    ((refl, refl), (sort-Perm before_by_x a.coords, sort-IsDescending a.coords h.0)),
    mark-IsPrepared no_match (suc i) ss h.1,
  )

  All-keep :
      (P : Series Num → Type 0) (p : Series Num → Bool) (ss : List (Series Num))
      → All P ss
      → All P (keep p ss)
  All-keep P p [] h = tt
  All-keep P p (a ∷ ss) h = elim (Bool-cases (p a)) [
    | inl e ↦ rw e (h.0, All-keep P p ss h.1)
    | inr e ↦ rw e (All-keep P p ss h.1)
  ]

keep-all : {A : Type 0} (p : A → Bool) (xs : List A) → ((a : A) → p a ≡ true) → keep p xs ≡ xs
keep-all p [] h = refl
keep-all p (x ∷ xs) h = rw (h x) (ap (λ rest. x ∷ rest) (keep-all p xs h))

keep-keep :
    {A : Type 0} (p q : A → Bool) (xs : List A) → keep q (keep p xs) ≡ keep (λ a. p a && q a) xs
keep-keep p q [] = refl
keep-keep p q (x ∷ xs) = elim (Bool-cases (p x)) [
  | inl e ↦ elim (Bool-cases (q x)) [
    | inl d ↦ rw e (rw d (ap (λ rest. x ∷ rest) (keep-keep p q xs)))
    | inr d ↦ rw e (rw d (keep-keep p q xs))
  ]
  | inr e ↦ rw e (keep-keep p q xs)
]

module _ {Num : Type 0} ⦃num : JsNumber Num⦄ (browser : Browser Num) (s : Settings) where
  -- A series passes the filter if it is ignored or not set, if it is for samples only and the graph
  -- does not tell controllers from samples, or if the label matches it.
  abbrev pub passes_filter : (ignore : Bool) → Result Num → Series Num → Bool
  passes_filter ignore result item =
      ignore
      || (str_eq s.series_filter ""
          || ((s.filters_only_sample_series && not result.supports_controllers_discrimination)
              || browser.matches s.series_filter item.label))

  -- Where only controllers are to be shown and the graph can tell them, it is one.
  abbrev pub passes_controllers : Result Num → Series Num → Bool
  passes_controllers result item =
      not s.show_controllers_only
      || (not result.supports_controllers_discrimination || item.is_controller)

  filter-cases :
      (ignore unset samples tells : Bool) (m : Series Num → Bool) (ss : List (Series Num))
      → (if not ignore && (not unset && (not samples || tells)) then browser.grep m ss else ss)
        ≡ keep (λ item. ignore || (unset || ((samples && not tells) || m item))) ss
  filter-cases true unset samples tells m ss = sym (keep-all _ ss (λ a. refl))
  filter-cases false true samples tells m ss = sym (keep-all _ ss (λ a. refl))
  filter-cases false false true false m ss = sym (keep-all _ ss (λ a. refl))
  filter-cases false false true true m ss = browser.grep_lem m ss
  filter-cases false false false tells m ss = browser.grep_lem m ss

  controller-cases :
      (controllers tells : Bool) (m : Series Num → Bool) (ss : List (Series Num))
      → (if tells && controllers then browser.grep m ss else ss)
        ≡ keep (λ item. not controllers || (not tells || m item)) ss
  controller-cases true true m ss = browser.grep_lem m ss
  controller-cases true false m ss = sym (keep-all _ ss (λ a. refl))
  controller-cases false true m ss = sym (keep-all _ ss (λ a. refl))
  controller-cases false false m ss = sym (keep-all _ ss (λ a. refl))

  -- The series that are shown.
  abbrev pub shown : (ignore : Bool) → Result Num → List (Series Num)
  shown ignore result =
      keep (λ item. passes_filter ignore result item && passes_controllers result item)
        result.series

  kept-shown :
      (ignore : Bool) (result : Result Num)
      → only_controllers browser s result (filtered browser s ignore result) ≡ shown ignore result
  unfolding filtered only_controllers
  kept-shown ignore result =
      controller-cases s.show_controllers_only result.supports_controllers_discrimination _ _
      ∙ (ap (keep (passes_controllers result)) (
            filter-cases ignore (str_eq s.series_filter "") s.filters_only_sample_series
              result.supports_controllers_discrimination _ result.series)
          ∙ keep-keep (passes_filter ignore result) (passes_controllers result) result.series)

  -- Whatever the settings, `prepareSeries` leaves the series that pass the filter and, where only
  -- controllers are to be shown, are controllers, in their order, for a graph whose abscissas are
  -- numbers. Each keeps its label and its points, which are put in descending order of the abscissa,
  -- and gets its index as color, unless colors are not to be set.
  pub prepare_series-IsPrepared :
      (no_match ignore : Bool) (d : GraphData Num)
      → All (λ item. HasNumbers item.coords) d.result.series
      → IsPrepared no_match 0
          (shown ignore d.result)
          (prepare_series browser s no_match ignore d).result.series
  unfolding prepare_series
  prepare_series-IsPrepared no_match ignore d h =
      rw
        (browser.each_lem (mark no_match)
          (only_controllers browser s d.result (filtered browser s ignore d.result)))
        (rw (kept-shown ignore d.result) (
          mark-IsPrepared no_match 0 (shown ignore d.result)
            (All-keep (λ item. HasNumbers item.coords) _ d.result.series h)))
