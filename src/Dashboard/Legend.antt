-- ===== src/Dashboard/Legend.antt =====
-- The legend that `createLegend` of engines/jmeter/html-report/content/js/dashboard-commons.js makes,
-- and the series that `prepareData` takes by its checkboxes.
use mathlib.Core.List.{Perm, filter_map, filter_map-cons-none, filter_map-cons-some}
use mathlib.Core.List.Perm
use p_loadtesting.Prelude.{
  ◌≡◌, refl, ap, sym, ◌∙◌, subst, String, true, false, Option, none, some, List, [], ◌∷◌, map,
  str_eq, eq_refl, All,
}
use p_loadtesting.Dashboard.Actions.{set_checked}
use p_loadtesting.Dashboard.Commons.{before_caseless}
use p_loadtesting.Dashboard.Data.{Series, Browser, Box, all_checked}
use p_loadtesting.Dashboard.Series.{find_series, prepare_data, labels, legend_boxes}
use p_loadtesting.Js.Text.{is_html_plain}
use p_loadtesting.Js.Number.{JsNumber}
use p_loadtesting.Js.Sort.{sort, sort-Perm}

module _ {Num : Type 0} where
  -- No two series have the same label.
  abbrev pub HasDistinctLabels : List (Series Num) → Type 0
  HasDistinctLabels [] = Unit
  HasDistinctLabels (a ∷ ss) = All (λ b. str_eq a.label b.label ≡ false) ss × HasDistinctLabels ss

  prepare_data-by_series :
      (ss : List (Series Num)) (key : String) (keys : List String) (o : Option (Series Num))
      → find_series key ss ≡ o
      → prepare_data ss (all_checked keys) ≡ filter_map (λ k. find_series k ss) keys
      → prepare_data ss (all_checked (key ∷ keys)) ≡ filter_map (λ k. find_series k ss) (key ∷ keys)
  unfolding prepare_data
  prepare_data-by_series ss key keys none e h = rw e (h ∙ sym (filter_map-cons-none _ key keys e))
  prepare_data-by_series ss key keys (some item) e h =
      rw e (ap (λ rest. item ∷ rest) h ∙ sym (filter_map-cons-some _ key keys e))

  prepare_data-filter_map :
      (ss : List (Series Num)) (keys : List String)
      → prepare_data ss (all_checked keys) ≡ filter_map (λ key. find_series key ss) keys
  unfolding prepare_data filter_map
  prepare_data-filter_map ss [] = refl
  prepare_data-filter_map ss (key ∷ keys) =
      prepare_data-by_series ss key keys (find_series key ss) refl (prepare_data-filter_map ss keys)

  find-other :
      (b : Series Num) (ss ts : List (Series Num))
      → All (λ a. str_eq b.label a.label ≡ false) ts
      → All (λ a. find_series a.label ss ≡ some a) ts
      → All (λ a. find_series a.label (b ∷ ss) ≡ some a) ts
  unfolding find_series
  find-other b ss [] h k = tt
  find-other b ss (a ∷ ts) h k = (rw (h.0) (k.0), find-other b ss ts h.1 k.1)

  find-own :
      (ss : List (Series Num))
      → HasDistinctLabels ss
      → All (λ a. find_series a.label ss ≡ some a) ss
  unfolding find_series
  find-own [] h = tt
  find-own (b ∷ ss) h = (rw (eq_refl b.label) refl, find-other b ss ss h.0 (find-own ss h.1))

  filter_map-labels :
      (ss ts : List (Series Num))
      → All (λ a. find_series a.label ss ≡ some a) ts
      → filter_map (λ key. find_series key ss) (labels ts) ≡ ts
  unfolding filter_map
  filter_map-labels ss [] h = refl
  filter_map-labels ss (a ∷ ts) h =
      filter_map-cons-some _ a.label (labels ts) h.0
      ∙ ap (λ rest. a ∷ rest) (filter_map-labels ss ts h.1)

  prepare_data-unchecked :
      (ss : List (Series Num)) (boxes : List Box) → prepare_data ss (set_checked false boxes) ≡ []
  unfolding prepare_data
  prepare_data-unchecked ss [] = refl
  prepare_data-unchecked ss (box ∷ boxes) = prepare_data-unchecked ss boxes

set_checked-all_checked :
    (keys : List String)
    → set_checked true (set_checked false (all_checked keys)) ≡ all_checked keys
set_checked-all_checked [] = refl
set_checked-all_checked (key ∷ keys) =
    ap (λ rest. record { name = key; checked = true } ∷ rest) (set_checked-all_checked keys)

attribute-labels :
    {Num : Type 0} (browser : Browser Num) (keys : List String)
    → All (λ key. is_html_plain key ≡ true) keys
    → map browser.attribute keys ≡ keys
attribute-labels browser [] h = refl
attribute-labels browser (key ∷ keys) h =
    rw (browser.attribute-plain key h.0, attribute-labels browser keys h.1) refl

-- With the checkboxes of a new legend, all the series of a graph whose labels are different,
-- and are texts that HTML reads in an attribute as they are, are drawn, in some order; when all of them are unchecked none is; and when they are then checked again
-- the checkboxes are those of the new legend.
pub prepare_data-legend_boxes :
    {Num : Type 0} ⦃num : JsNumber Num⦄ (browser : Browser Num) (ss : List (Series Num))
    → HasDistinctLabels ss
    → All (λ key. is_html_plain key ≡ true) (labels ss)
    → Perm (prepare_data ss (legend_boxes browser ss)) ss
      × ((prepare_data ss (set_checked false (legend_boxes browser ss)) ≡ [])
          × (set_checked true (set_checked false (legend_boxes browser ss))
              ≡ legend_boxes browser ss))
unfolding legend_boxes
prepare_data-legend_boxes browser ss h plain = (
  subst (λ l. Perm l ss) (sym (prepare_data-filter_map ss _))
      (subst (Perm _) (filter_map-labels ss ss (find-own ss h)) (
        Perm.filter_map (λ key. find_series key ss)
          (subst (Perm _) (attribute-labels browser (labels ss) plain)
            (Perm.map browser.attribute (sort-Perm (before_caseless browser) (labels ss)))))),
  (
    prepare_data-unchecked ss _,
    set_checked-all_checked (map browser.attribute (sort (before_caseless browser) (labels ss))),
  ),
)
