-- ===== src/Dashboard/Tables.antt =====
-- engines/jmeter/html-report/content/js/dashboard.js: the tables of the report.
pub mod Shown
pub mod Numbers
use Prim.Native.String.{◌++◌}
use mathlib.Core.List.{Perm}
use p_loadtesting.Prelude.{
  ℕ, zero, suc, ◌+◌, String, Bool, true, false, not, ◌&&◌, ◌||◌, Option, none, some, List, [], ◌∷◌,
  str_eq, ◌==◌, ltb, leb, length, if◌then◌else◌,
}
use p_loadtesting.Dashboard.Data.{Settings, Browser}
use p_loadtesting.Js.Number.{JsNumber}
use p_loadtesting.Js.Outcome.{Outcome, returned, threw, ◌>>=◌}
use p_loadtesting.Js.Value.{Value, undefined, null, number, text, to_text}

-- A row of a table's data.
pub record Item (Num : Type 0) : Type 0 where
  pub cells : List (Value Num)
  pub is_controller : Bool

pub record Info (Num : Type 0) : Type 0 where
  pub supports_controllers_discrimination : Bool
  -- the cells of the row of totals, where there is one
  pub overall : Option (List (Value Num))
  pub titles : List String
  pub items : List (Item Num)

-- A cell of a heading, with `colSpan`.
pub record Heading : Type 0 where
  pub col_span : ℕ
  pub html : String

-- What `createTable` writes into the page.
pub record Table : Type 0 where
  pub headings : List Heading
  pub titles : List String
  pub overall : Option (List String)
  pub body : List (List String)

-- tablesorter, a library beside this code: `sort_rows` is the order in which it puts the rows
-- of a body for a `sortList` of columns, each with 0 for ascending or 1 for descending; it leaves a
-- body of the class `tablesorter-no-sort`, like that of the totals, as it is.
pub record Tablesorter : Type 0 where
  pub sort_rows : List (ℕ × ℕ) → List (List String) → List (List String)
  pub sort_rows-Perm :
      (sort_list : List (ℕ × ℕ)) (rows : List (List String)) → Perm (sort_rows sort_list rows) rows

unfoldable pub summary_table_header : List Heading
summary_table_header =
    record { col_span = 1; html = "Requests" }
    ∷ record { col_span = 3; html = "Executions" }
    ∷ record { col_span = 7; html = "Response Times (ms)" }
    ∷ record { col_span = 1; html = "Throughput" }
    ∷ record { col_span = 2; html = "Network (KB/sec)" }
    ∷ []

module _ {Num : Type 0} where
  abbrev pub cell_at : List (Value Num) → ℕ → Value Num
  cell_at [] i = undefined
  cell_at (v ∷ vs) zero = v
  cell_at (v ∷ vs) (suc i) = cell_at vs i

module _ {Num : Type 0} where
  -- `data[index]`, where the index may be undefined
  abbrev pub indexed : List (Value Num) → Option ℕ → Value Num
  indexed vs none = undefined
  indexed vs (some i) = cell_at vs i

module _ {Num : Type 0} ⦃num : JsNumber Num⦄ where
  -- `cell.innerHTML = value`
  unfoldable pub html_text : Value Num → String
  unfolding to_text
  html_text null = ""
  html_text v = to_text v

  -- `item.toFixed(digits)`
  unfoldable pub fixed : ℕ → Value Num → Outcome String
  fixed digits (number x) = returned (num.to_fixed digits x)
  fixed digits _ = threw

  -- the function that formats the cells of the table of statistics
  unfoldable pub statistics_cell : ℕ → Value Num → Outcome String
  unfolding fixed html_text
  statistics_cell index item =
      if index == 3
      then (fixed 2 item >>= λ s. returned (s ++ "%"))
      else if index == 4 || (leb 7 index && leb index 13)
      then fixed 2 item
      else returned (html_text item)

  -- and that of the table of errors
  unfoldable pub error_cell : ℕ → Value Num → Outcome String
  unfolding fixed html_text
  error_cell index item =
      if index == 2 || index == 3
      then (fixed 2 item >>= λ s. returned (s ++ "%"))
      else returned (html_text item)

  -- and that of the table of the five most frequent errors
  unfoldable pub top5_cell : ℕ → Value Num → Outcome String
  unfolding html_text
  top5_cell index item = returned (html_text item)

  -- The cells of a row, from a column on.
  unfoldable pub row :
      (ℕ → Value Num → Outcome String) → ℕ → List (Value Num) → Outcome (List String)
  row formatter col [] = returned []
  row formatter col (v ∷ vs) =
      formatter col v >>= λ s. row formatter (suc col) vs >>= λ later. returned (s ∷ later)

  unfoldable pub overall_row :
      (ℕ → Value Num → Outcome String) → Option (List (Value Num)) → Outcome (Option (List String))
  unfolding row
  overall_row formatter none = returned none
  overall_row formatter (some cells) = row formatter 0 cells >>= λ r. returned (some r)

module _ {Num : Type 0} ⦃num : JsNumber Num⦄ (browser : Browser Num) (s : Settings) where
  -- The condition on an item, for a column of labels.
  unfoldable pub is_listed : (tells : Bool) → (series_index : Option ℕ) → Item Num → Bool
  unfolding to_text
  is_listed tells series_index item =
      (str_eq s.series_filter ""
        || ((s.filters_only_sample_series && not tells)
            || browser.matches s.series_filter (to_text (indexed item.cells series_index))))
      && (not s.show_controllers_only || (not tells || item.is_controller))

  unfoldable pub body_rows :
      (tells : Bool)
      → (ℕ → Value Num → Outcome String)
      → (series_index : Option ℕ) → List (Item Num)
      → Outcome (List (List String))
  unfolding is_listed row
  body_rows tells formatter series_index [] = returned []
  body_rows tells formatter series_index (item ∷ items) =
      let later = body_rows tells formatter series_index items in
      if is_listed tells series_index item && ltb 0 (length item.cells)
      then (row formatter 0 item.cells >>= λ r. later >>= λ rs. returned (r ∷ rs))
      else later

  -- `createTable`: at its end the sorter puts the rows of the body in order.
  unfoldable pub create_table :
      Tablesorter
      → Info Num
      → (ℕ → Value Num → Outcome String)
      → (default_sorts : List (ℕ × ℕ)) → (series_index : Option ℕ) → List Heading
      → Outcome Table
  unfolding overall_row body_rows
  create_table sorter info formatter default_sorts series_index headings =
      overall_row formatter info.overall >>= λ totals.
      body_rows info.supports_controllers_discrimination formatter series_index info.items
      >>= λ rows. returned (record {
        headings = headings;
        titles = info.titles;
        overall = totals;
        body = sorter.sort_rows default_sorts rows;
      })
