-- ===== src/Dashboard/Points.antt =====
-- What the preparation of series and the fixing of time stamps do to the points of a graph.
use mathlib.Core.List.{Perm, map-map}
use mathlib.Core.List.Perm
use p_loadtesting.Prelude.{
  ℕ, zero, suc, ◌≡◌, refl, ap, ◌∙◌, Bool, List, [], ◌∷◌, map, subst, sym, Bool-cases, inl, inr,
}
use p_loadtesting.Dashboard.Commons.{settings, before_by_x}
use p_loadtesting.Dashboard.Data.{Coord, Series, GraphData, Browser, each_from}
use p_loadtesting.Dashboard.Series.{
  fix_time_stamps, filtered, only_controllers, mark, prepare_series,
}
use p_loadtesting.Js.Number.{JsNumber}
use p_loadtesting.Js.Sort.{sort-Perm}

module _ {Num : Type 0} ⦃num : JsNumber Num⦄ where
  -- A point moved by an offset, a number of times.
  unfoldable pub shift : ℕ → Num → Coord Num → Coord Num
  shift zero offset c = c
  shift (suc k) offset c =
      let before = shift k offset c in record { x = num.add before.x offset; y = before.y }

  -- Series with the same labels whose points are, up to their order, the given ones moved `k` times.
  abbrev pub Moved : ℕ → Num → List (Series Num) → List (Series Num) → Type 0
  Moved k offset [] [] = Unit
  Moved k offset (a ∷ ss) (b ∷ ts) =
      ((b.label ≡ a.label) × Perm (map (shift k offset) a.coords) b.coords) × Moved k offset ss ts
  Moved k offset _ _ = ⊥

  map-shift-0 : (offset : Num) (cs : List (Coord Num)) → map (shift 0 offset) cs ≡ cs
  unfolding shift
  map-shift-0 offset [] = refl
  map-shift-0 offset (c ∷ cs) = ap (λ rest. c ∷ rest) (map-shift-0 offset cs)

  pub Moved-refl : (offset : Num) (ss : List (Series Num)) → Moved 0 offset ss ss
  Moved-refl offset [] = tt
  Moved-refl offset (a ∷ ss) =
      ((refl, rw (map-shift-0 offset a.coords) (Perm.refl a.coords)), Moved-refl offset ss)

  Moved-mark :
      (k : ℕ) (offset : Num) (no_match : Bool) (i : ℕ) (ss ts : List (Series Num))
      → Moved k offset ss ts
      → Moved k offset ss (each_from i (mark no_match) ts)
  unfolding mark
  Moved-mark k offset no_match i [] [] h = tt
  Moved-mark k offset no_match i (a ∷ ss) (b ∷ ts) h = (
    (h.0.0, Perm.trans h.0.1 (Perm.symm (sort-Perm before_by_x b.coords))),
    Moved-mark k offset no_match (suc i) ss ts h.1,
  )
  Moved-mark k offset no_match i [] (b ∷ ts) h = elim h [ ]
  Moved-mark k offset no_match i (a ∷ ss) [] h = elim h [ ]

  Moved-shift :
      (k : ℕ) (offset : Num) (a b : List (Coord Num))
      → Perm (map (shift k offset) a) b
      → Perm (map (shift (suc k) offset) a) (map (shift 1 offset) b)
  unfolding shift
  Moved-shift k offset a b h =
      subst (λ l. Perm l (map (shift 1 offset) b)) (map-map (shift 1 offset) (shift k offset) a)
        (Perm.map (shift 1 offset) h)

  each-map :
      (f : Coord Num → Coord Num) (i : ℕ) (cs : List (Coord Num))
      → each_from i (λ _. f) cs ≡ map f cs
  each-map f i [] = refl
  each-map f i (c ∷ cs) = ap (λ rest. f c ∷ rest) (each-map f (suc i) cs)

module _ {Num : Type 0} ⦃num : JsNumber Num⦄ (browser : Browser Num) where
  each_coord-map :
      (f : Coord Num → Coord Num) (cs : List (Coord Num))
      → browser.each_coord (λ _. f) cs ≡ map f cs
  each_coord-map f cs = browser.each_coord_lem (λ _. f) cs ∙ each-map f 0 cs

  abbrev fixed : Num → ℕ → Series Num → Series Num
  fixed offset _ item = record item {
    coords = browser.each_coord (λ _. shift 1 offset) item.coords;
  }

  Moved-fixed :
      (k : ℕ) (offset : Num) (i : ℕ) (ss ts : List (Series Num))
      → Moved k offset ss ts
      → Moved (suc k) offset ss (each_from i (fixed offset) ts)
  Moved-fixed k offset i [] [] h = tt
  Moved-fixed k offset i (a ∷ ss) (b ∷ ts) h = (
    (
      h.0.0,
      rw (each_coord-map (shift 1 offset) b.coords) (Moved-shift k offset a.coords b.coords h.0.1),
    ),
    Moved-fixed k offset (suc i) ss ts h.1,
  )
  Moved-fixed k offset i [] (b ∷ ts) h = elim h [ ]
  Moved-fixed k offset i (a ∷ ss) [] h = elim h [ ]

  pub Moved-fix_time_stamps :
      (k : ℕ) (offset : Num) (ss ts : List (Series Num))
      → Moved k offset ss ts
      → Moved (suc k) offset ss (fix_time_stamps browser offset ts)
  unfolding fix_time_stamps shift
  Moved-fix_time_stamps k offset ss ts h =
      subst (Moved (suc k) offset ss) (sym (browser.each_lem (fixed offset) ts))
        (Moved-fixed k offset 0 ss ts h)

  prepared_settings :
      (no_match ignore : Bool) (d : GraphData Num)
      → (prepare_series browser settings no_match ignore d).result.series
        ≡ each_from 0 (mark no_match) d.result.series
  unfolding prepare_series filtered only_controllers
  prepared_settings no_match ignore d = elim (Bool-cases ignore) [
    | inl i ↦ elim (Bool-cases d.result.supports_controllers_discrimination) [
      | inl s ↦ rw i (rw s (browser.each_lem (mark no_match) d.result.series))
      | inr s ↦ rw i (rw s (browser.each_lem (mark no_match) d.result.series))
    ]
    | inr i ↦ elim (Bool-cases d.result.supports_controllers_discrimination) [
      | inl s ↦ rw i (rw s (browser.each_lem (mark no_match) d.result.series))
      | inr s ↦ rw i (rw s (browser.each_lem (mark no_match) d.result.series))
    ]
  ]

  -- With the settings of the file, the preparation keeps every series and every point.
  pub Moved-prepare_series :
      (k : ℕ) (offset : Num) (no_match ignore : Bool) (ss : List (Series Num)) (d : GraphData Num)
      → Moved k offset ss d.result.series
      → Moved k offset ss (prepare_series browser settings no_match ignore d).result.series
  Moved-prepare_series k offset no_match ignore ss d h =
      rw (prepared_settings no_match ignore d) (Moved-mark k offset no_match 0 ss d.result.series h)
