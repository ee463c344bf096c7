-- ===== src/Dashboard/Tables/Shown.antt =====
-- The rows of a table of engines/jmeter/html-report/content/js/dashboard.js are those of the samples
-- whose series the graphs show.
use mathlib.Core.List.{Perm}
use p_loadtesting.Prelude.{
  ℕ, suc, ◌≡◌, refl, String, Bool, false, ◌&&◌, Option, none, some, List, [], ◌∷◌, length, ltb,
  if◌then◌else◌, Bool-cases, inl, inr, All,
}
use p_loadtesting.Dashboard.Data.{Series, Result, Settings, Browser}
use p_loadtesting.Dashboard.Order.{passes_filter, passes_controllers}
use p_loadtesting.Dashboard.Tables.{
  html_text, Item, Info, Heading, Tablesorter, indexed, top5_cell, row, overall_row, is_listed,
  body_rows, create_table,
}
use p_loadtesting.Js.Number.{JsNumber}
use p_loadtesting.Js.Outcome.{Outcome, returned}
use p_loadtesting.Js.Value.{Value, undefined, to_text}

module _ {Num : Type 0} ⦃num : JsNumber Num⦄ where
  -- The series and the result that stand for an item and a table.
  abbrev pub series_of : Option ℕ → Item Num → Series Num
  series_of series_index item = record {
    label = to_text (indexed item.cells series_index);
    is_controller = item.is_controller;
    coords = [];
    color = undefined;
  }

  abbrev pub result_of : Info Num → Result Num
  result_of info = record {
    series = [];
    supports_controllers_discrimination = info.supports_controllers_discrimination;
    granularity = 0;
    ticks = undefined;
  }

  abbrev pub texts : List (Value Num) → List String
  texts [] = []
  texts (v ∷ vs) = html_text v ∷ texts vs

  row-texts : (col : ℕ) (vs : List (Value Num)) → row top5_cell col vs ≡ returned (texts vs)
  unfolding row top5_cell
  row-texts col [] = refl
  row-texts col (v ∷ vs) = rw (row-texts (suc col) vs) refl

  -- The row of totals, where there is one.
  abbrev pub overall_by :
      (List (Value Num) → List String) → Option (List (Value Num)) → Option (List String)
  overall_by f none = none
  overall_by f (some cells) = some (f cells)

  -- What a function makes of the cells of the items that are listed and have cells.
  abbrev pub rows_of :
      (List (Value Num) → List String) → (Item Num → Bool) → List (Item Num) → List (List String)
  rows_of f p [] = []
  rows_of f p (item ∷ items) =
      let later = rows_of f p items in
      if p item && ltb 0 (length item.cells) then f item.cells ∷ later else later

  -- The formatter of a table writes the cells as a function says.
  abbrev pub Writes :
      (ℕ → Value Num → Outcome String)
      → (List (Value Num) → List String)
      → List (Value Num)
      → Type 0
  Writes formatter f cells = row formatter 0 cells ≡ returned (f cells)

  abbrev pub OnTotals : (List (Value Num) → Type 0) → Option (List (Value Num)) → Type 0
  OnTotals P none = Unit
  OnTotals P (some cells) = P cells

  overall_row-Writes :
      (formatter : ℕ → Value Num → Outcome String) (f : List (Value Num) → List String)
      (o : Option (List (Value Num)))
      → OnTotals (Writes formatter f) o
      → overall_row formatter o ≡ returned (overall_by f o)
  unfolding overall_row
  overall_row-Writes formatter f none h = refl
  overall_row-Writes formatter f (some cells) h = rw h refl

  items-texts : (items : List (Item Num)) → All (λ item. Writes top5_cell texts item.cells) items
  items-texts [] = tt
  items-texts (item ∷ items) = (row-texts 0 item.cells, items-texts items)

  totals-texts : (o : Option (List (Value Num))) → OnTotals (Writes top5_cell texts) o
  totals-texts none = tt
  totals-texts (some cells) = row-texts 0 cells

module _ {Num : Type 0} ⦃num : JsNumber Num⦄ (browser : Browser Num) (s : Settings) where
  -- Whether the graphs show the series of an item.
  abbrev pub is_shown : Info Num → Option ℕ → Item Num → Bool
  is_shown info series_index item =
      passes_filter browser s false (result_of info) (series_of series_index item)
      && passes_controllers browser s (result_of info) (series_of series_index item)

  body_rows-Writes :
      (formatter : ℕ → Value Num → Outcome String) (f : List (Value Num) → List String)
      (info : Info Num) (series_index : Option ℕ) (items : List (Item Num))
      → All (λ item. Writes formatter f item.cells) items
      → body_rows browser s info.supports_controllers_discrimination formatter series_index items
        ≡ returned (rows_of f (is_shown info series_index) items)
  unfolding body_rows is_listed
  body_rows-Writes formatter f info series_index [] h = refl
  body_rows-Writes formatter f info series_index (item ∷ items) h =
      elim (Bool-cases (is_shown info series_index item && ltb 0 (length item.cells))) [
        | inl e ↦
            rw e (rw (h.0) (rw (body_rows-Writes formatter f info series_index items h.1) refl))
        | inr e ↦ rw e (body_rows-Writes formatter f info series_index items h.1)
      ]

  -- The table has the rows that a function makes of the items shown, in the order of the sorter.
  abbrev pub Lists :
      Tablesorter
      → Info Num
      → (ℕ → Value Num → Outcome String)
      → (List (Value Num) → List String)
      → List (ℕ × ℕ)
      → Option ℕ
      → List Heading
      → Type 0
  Lists sorter info formatter f default_sorts series_index headings =
      let rows = rows_of f (is_shown info series_index) info.items in
      let body = sorter.sort_rows default_sorts rows in
      (create_table browser s sorter info formatter default_sorts series_index headings
        ≡ returned (record {
          headings = headings;
          titles = info.titles;
          overall = overall_by f info.overall;
          body = body;
        }))
      × Perm body rows

  pub create_table-Lists :
      (sorter : Tablesorter) (info : Info Num) (formatter : ℕ → Value Num → Outcome String)
      (f : List (Value Num) → List String) (default_sorts : List (ℕ × ℕ)) (series_index : Option ℕ)
      (headings : List Heading)
      → OnTotals (Writes formatter f) info.overall
      → All (λ item. Writes formatter f item.cells) info.items
      → Lists sorter info formatter f default_sorts series_index headings
  unfolding create_table
  create_table-Lists sorter info formatter f default_sorts series_index headings h k = (
    rw
        (
          overall_row-Writes formatter f info.overall h,
          body_rows-Writes formatter f info series_index info.items k,
        )
        refl,
    sorter.sort_rows-Perm default_sorts (rows_of f (is_shown info series_index) info.items),
  )

  -- `createTable` of the five most frequent errors returns. The rows below its titles are, in the
  -- order in which tablesorter puts them, those of the items that have cells and whose series,
  -- labelled by the given column, the graphs show by the same settings, each row with the texts of
  -- its item; and those of the totals stand above them.
  pub create_table-texts :
      (sorter : Tablesorter) (info : Info Num) (default_sorts : List (ℕ × ℕ))
      (series_index : Option ℕ) (headings : List Heading)
      → Lists sorter info top5_cell texts default_sorts series_index headings
  create_table-texts sorter info default_sorts series_index headings =
      create_table-Lists sorter info top5_cell texts default_sorts series_index headings
        (totals-texts info.overall) (items-texts info.items)
