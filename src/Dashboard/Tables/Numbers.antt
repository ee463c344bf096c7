-- ===== src/Dashboard/Tables/Numbers.antt =====
-- The formats of the columns of statistics in engines/jmeter/html-report/content/js/dashboard.js.
use Prim.Native.String.{◌++◌}
use p_loadtesting.Prelude.{
  ℕ, zero, suc, ◌≡◌, refl, String, Bool, true, ◌&&◌, ◌||◌, Option, none, some, List, [], ◌∷◌, ◌==◌,
  leb, if◌then◌else◌, Bool-cases, inl, inr, All, arith,
}
use p_loadtesting.Dashboard.Data.{Settings, Browser}
use p_loadtesting.Dashboard.Tables.{
  Item, Info, Heading, Tablesorter, html_text, fixed, statistics_cell, row,
}
use p_loadtesting.Dashboard.Tables.Shown.{OnTotals, Writes, Lists, create_table-Lists}
use p_loadtesting.Js.Number.{JsNumber}
use p_loadtesting.Js.Outcome.{returned, ◌>>=◌}
use p_loadtesting.Js.Value.{Value, undefined, null, boolean, number, text, array, object, is_number}

pub data Format : Type 0 where
  as_is : Format
  two_digits : Format
  percent : Format

-- Label, #Samples, FAIL; Error %, Average; Min, Max; Median, three percentiles, Transactions/s,
-- Received, Sent
abbrev pub statistics_formats : List Format
statistics_formats =
    as_is ∷ as_is ∷ as_is ∷ percent ∷ two_digits ∷ as_is ∷ as_is ∷ two_digits ∷ two_digits
    ∷ two_digits ∷ two_digits ∷ two_digits ∷ two_digits ∷ two_digits ∷ []

-- The format of a column; those that follow the list are written as they are.
abbrev pub format_at : List Format → ℕ → Format
format_at [] index = as_is
format_at (f ∷ fs) zero = f
format_at (f ∷ fs) (suc index) = format_at fs index

format_at-statistics :
    (index : ℕ)
    → format_at statistics_formats index ≡ (
        if index == 3
        then percent
        else if index == 4 || (leb 7 index && leb index 13)
        then two_digits
        else as_is)
format_at-statistics zero = refl
format_at-statistics (suc zero) = refl
format_at-statistics (suc (suc zero)) = refl
format_at-statistics (suc (suc (suc zero))) = refl
format_at-statistics (suc (suc (suc (suc zero)))) = refl
format_at-statistics (suc (suc (suc (suc (suc zero))))) = refl
format_at-statistics (suc (suc (suc (suc (suc (suc zero)))))) = refl
format_at-statistics (suc (suc (suc (suc (suc (suc (suc zero))))))) = refl
format_at-statistics (suc (suc (suc (suc (suc (suc (suc (suc zero)))))))) = refl
format_at-statistics (suc (suc (suc (suc (suc (suc (suc (suc (suc zero))))))))) = refl
format_at-statistics (suc (suc (suc (suc (suc (suc (suc (suc (suc (suc zero)))))))))) = refl
format_at-statistics (suc (suc (suc (suc (suc (suc (suc (suc (suc (suc (suc zero))))))))))) = refl
format_at-statistics (suc (suc (suc (suc (suc (suc (suc (suc (suc (suc (suc (suc zero)))))))))))) =
    refl
format_at-statistics
      (suc (suc (suc (suc (suc (suc (suc (suc (suc (suc (suc (suc (suc zero))))))))))))) =
    refl
format_at-statistics
      (suc (suc (suc (suc (suc (suc (suc (suc (suc (suc (suc (suc (suc (suc n)))))))))))))) =
    ground arith

module _ {Num : Type 0} where
  unfoldable pub fits_format : Format → Value Num → Bool
  unfolding is_number
  fits_format as_is v = true
  fits_format _ v = is_number v

  -- Whether the cells of a row, from a column on, are numbers where their format asks for one.
  unfoldable pub is_numeric : ℕ → List (Value Num) → Bool
  unfolding fits_format
  is_numeric col [] = true
  is_numeric col (v ∷ vs) =
      fits_format (format_at statistics_formats col) v && is_numeric (suc col) vs

module _ {Num : Type 0} ⦃num : JsNumber Num⦄ where
  abbrev pub digits_text : Value Num → String
  digits_text (number x) = num.to_fixed 2 x
  digits_text _ = ""

  unfoldable pub text_by : Format → Value Num → String
  unfolding html_text
  text_by as_is v = html_text v
  text_by two_digits v = digits_text v
  text_by percent v = digits_text v ++ "%"

  -- The texts of a row, from a column on.
  unfoldable pub formatted : ℕ → List (Value Num) → List String
  unfolding text_by
  formatted col [] = []
  formatted col (v ∷ vs) = text_by (format_at statistics_formats col) v ∷ formatted (suc col) vs

  fixed-text : (v : Value Num) → is_number v ≡ true → fixed 2 v ≡ returned (digits_text v)
  unfolding fixed is_number
  fixed-text (number x) h = refl
  fixed-text undefined h = cc
  fixed-text null h = cc
  fixed-text (boolean b) h = cc
  fixed-text (text s) h = cc
  fixed-text (array vs) h = cc
  fixed-text (object fs) h = cc

  percent-text :
      (v : Value Num)
      → is_number v ≡ true
      → (fixed 2 v >>= λ s. returned (s ++ "%")) ≡ returned (digits_text v ++ "%")
  unfolding fixed is_number
  percent-text (number x) h = refl
  percent-text undefined h = cc
  percent-text null h = cc
  percent-text (boolean b) h = cc
  percent-text (text s) h = cc
  percent-text (array vs) h = cc
  percent-text (object fs) h = cc

  statistics_cell-text :
      (index : ℕ) (v : Value Num)
      → fits_format (format_at statistics_formats index) v ≡ true
      → statistics_cell index v ≡ returned (text_by (format_at statistics_formats index) v)
  unfolding statistics_cell fits_format text_by
  statistics_cell-text index v h = elim (Bool-cases (index == 3)) [
    | inl e ↦
        rw (format_at-statistics index, e)
          (percent-text v (rw (format_at-statistics index, e) at h))
    | inr e ↦ elim (Bool-cases ((index == 4) || (leb 7 index && leb index 13))) [
      | inl d ↦
          rw (format_at-statistics index, e, d)
            (fixed-text v (rw (format_at-statistics index, e, d) at h))
      | inr d ↦ rw (format_at-statistics index, e, d) refl
    ]
  ]

  row-formatted :
      (col : ℕ) (vs : List (Value Num))
      → is_numeric col vs ≡ true
      → row statistics_cell col vs ≡ returned (formatted col vs)
  unfolding row is_numeric formatted
  row-formatted col [] h = refl
  row-formatted col (v ∷ vs) h =
      rw (statistics_cell-text col v (ground (arith, h)))
        (rw (row-formatted (suc col) vs (ground (arith, h))) refl)

  items-formatted :
      (items : List (Item Num))
      → All (λ item. is_numeric 0 item.cells ≡ true) items
      → All (λ item. Writes statistics_cell (formatted 0) item.cells) items
  items-formatted [] h = tt
  items-formatted (item ∷ items) h = (row-formatted 0 item.cells h.0, items-formatted items h.1)

  totals-formatted :
      (o : Option (List (Value Num)))
      → OnTotals (λ cells. is_numeric 0 cells ≡ true) o
      → OnTotals (Writes statistics_cell (formatted 0)) o
  totals-formatted none h = tt
  totals-formatted (some cells) h = row-formatted 0 cells h

module _ {Num : Type 0} ⦃num : JsNumber Num⦄ (browser : Browser Num) (s : Settings) where
  -- `createTable` of the statistics returns, for totals and items that have numbers where the
  -- formats of the columns ask for them. Its rows are, in the order in which tablesorter puts them,
  -- those of the items that have cells and whose series the graphs show by the same settings, and
  -- the totals are above them: the error rate with two digits and a percent sign, the average, the
  -- median, the percentiles, the throughput and the network rates with two digits, and the other
  -- cells as they are.
  pub create_table-formatted :
      (sorter : Tablesorter) (info : Info Num) (default_sorts : List (ℕ × ℕ))
      (series_index : Option ℕ) (headings : List Heading)
      → OnTotals (λ cells. is_numeric 0 cells ≡ true) info.overall
      → All (λ item. is_numeric 0 item.cells ≡ true) info.items
      → Lists browser s sorter info statistics_cell
          (formatted 0)
          default_sorts
          series_index
          headings
  create_table-formatted sorter info default_sorts series_index headings h k =
      create_table-Lists browser s sorter info statistics_cell (formatted 0) default_sorts
        series_index headings (totals-formatted info.overall h) (items-formatted info.items k)
