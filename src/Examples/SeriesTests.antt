-- ===== src/Examples/SeriesTests.antt =====
-- The series, the legends and the tables of the report at concrete inputs.
use mathlib.Core.List.{Perm}
use mathlib.Core.List.Perm
use p_loadtesting.Prelude.{List, ℕ, ◌≡◌, refl, true, false, Option, some, [], ◌∷◌}
use p_loadtesting.Dashboard.Actions.{set_checked}
use p_loadtesting.Dashboard.Data.{Settings}
use p_loadtesting.Dashboard.Legend.{prepare_data-legend_boxes}
use p_loadtesting.Dashboard.Order.{IsPrepared, shown, prepare_series-IsPrepared}
use p_loadtesting.Dashboard.Series.{prepare_series, prepare_data, legend_boxes}
use p_loadtesting.Dashboard.Tables.{
  statistics_cell, summary_table_header, html_text, Info, Tablesorter, top5_cell,
}
use p_loadtesting.Dashboard.Tables.Numbers.{formatted, is_numeric, create_table-formatted}
use p_loadtesting.Dashboard.Tables.Shown.{Lists, texts, rows_of, is_shown, create_table-texts}
use p_loadtesting.Examples.Report.{browser, sample}
use p_loadtesting.Js.Naturals.{naturals}
use p_loadtesting.Js.Text.{decimal, is_html_plain}
use p_loadtesting.Js.Value.{Value, number, text}

-- Only the samples of the login are shown.
abbrev login_only : Settings
login_only = record {
  show_controllers_only = false;
  series_filter = "GET /login";
  filters_only_sample_series = true;
}

prepare_series-IsPrepared_example :
    IsPrepared false 0
      (shown browser login_only false sample.result)
      (prepare_series browser login_only false false sample).result.series
prepare_series-IsPrepared_example =
    prepare_series-IsPrepared browser login_only false false sample
      ((refl, (refl, tt)), ((refl, tt), tt))

prepare_data-legend_boxes_example :
    Perm
      (prepare_data sample.result.series (legend_boxes browser sample.result.series))
      sample.result.series
    × ((prepare_data sample.result.series
            (set_checked false (legend_boxes browser sample.result.series))
          ≡ [])
        × (set_checked true (set_checked false (legend_boxes browser sample.result.series))
            ≡ legend_boxes browser sample.result.series))
unfolding is_html_plain
prepare_data-legend_boxes_example =
    prepare_data-legend_boxes browser sample.result.series ((refl, tt), (tt, tt)) (refl, (refl, tt))

abbrev errors : Info (Option ℕ)
errors = record {
  supports_controllers_discrimination = true;
  overall = some (text "Total" ∷ number (some 9) ∷ []);
  titles = "Sample" ∷ "#Errors" ∷ [];
  items =
      record { cells = text "GET /login" ∷ number (some 7) ∷ []; is_controller = false }
      ∷ record { cells = text "GET /api/health" ∷ number (some 2) ∷ []; is_controller = false }
      ∷ record { cells = []; is_controller = false }
      ∷ [];
}

-- A sorter that finds the rows in order.
abbrev in_order : Tablesorter
in_order = record {
  sort_rows = λ sort_list rows. rows;
  sort_rows-Perm = λ sort_list rows. Perm.refl rows;
}

create_table-texts_example :
    Lists browser login_only in_order errors top5_cell texts ((0, 0) ∷ []) (some 0) []
create_table-texts_example =
    create_table-texts browser login_only in_order errors ((0, 0) ∷ []) (some 0) []

errors_rows :
    rows_of texts (is_shown browser login_only errors (some 0)) errors.items
    ≡ ("GET /login" ∷ "7" ∷ []) ∷ []
unfolding html_text decimal
errors_rows = refl

abbrev total_cells : List (Value (Option ℕ))
total_cells =
    text "Total" ∷ number (some 9) ∷ number (some 1) ∷ number (some 11) ∷ number (some 20) ∷ []

abbrev statistics : Info (Option ℕ)
statistics = record {
  supports_controllers_discrimination = true;
  overall = some total_cells;
  titles = "Label" ∷ "#Samples" ∷ "FAIL" ∷ "Error %" ∷ "Average" ∷ [];
  items = record { cells = total_cells; is_controller = false } ∷ [];
}

create_table-formatted_example :
    Lists browser login_only in_order statistics statistics_cell
      (formatted 0)
      ((0, 0) ∷ [])
      (some 0)
      summary_table_header
unfolding is_numeric
create_table-formatted_example =
    create_table-formatted browser login_only in_order statistics ((0, 0) ∷ []) (some 0)
      summary_table_header refl (refl, tt)
