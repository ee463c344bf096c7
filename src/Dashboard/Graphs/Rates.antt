-- ===== src/Dashboard/Graphs/Rates.antt =====
-- engines/jmeter/html-report/content/js/graph.js: the graphs of hits, codes and transactions per second.
use mathlib.Core.List.{◌++◌}
use p_loadtesting.Prelude.{Bool, true, false, none, some, [], ◌∷◌}
use p_loadtesting.Dashboard.{get_elapsed_time_label}
use p_loadtesting.Dashboard.Data.{GraphData, Options, Browser}
use p_loadtesting.Dashboard.Page.{
  hits_per_second, codes_per_second, transactions_per_second, total_tps, Page, Infos,
}
use p_loadtesting.Dashboard.Refresh.{refresh}
use p_loadtesting.Dashboard.Style.{time_axis, lines_and_points, two_colors, plain, over_time}
use p_loadtesting.Js.Action.{Action}
use p_loadtesting.Js.Number.{JsNumber}

module _ {Num : Type 0} ⦃num : JsNumber Num⦄ where
  unfoldable pub hits_per_second_options : GraphData Num → Options Num
  unfolding time_axis over_time lines_and_points get_elapsed_time_label
  hits_per_second_options data_of = plain (
      over_time (lines_and_points true)
        (time_axis data_of.result.granularity (get_elapsed_time_label data_of.result.granularity))
        "Number of hits / sec" 2 "#legendHitsPerSecond" "%s at %x was %y.2 hits/sec")

  unfoldable pub codes_per_second_options : GraphData Num → Options Num
  unfolding time_axis over_time lines_and_points get_elapsed_time_label
  codes_per_second_options data_of = plain (
      over_time (lines_and_points true)
        (time_axis data_of.result.granularity (get_elapsed_time_label data_of.result.granularity))
        "Number of responses / sec" 2 "#legendCodesPerSecond"
        "Number of Response Codes %s at %x was %y.2 responses / sec")

  unfoldable pub transactions_per_second_options : GraphData Num → Options Num
  unfolding time_axis over_time lines_and_points get_elapsed_time_label
  transactions_per_second_options data_of = plain (
      over_time (lines_and_points true)
        (time_axis data_of.result.granularity (get_elapsed_time_label data_of.result.granularity))
        "Number of transactions / sec" 2 "#legendTransactionsPerSecond"
        "%s at %x was %y transactions / sec")

  unfoldable pub total_tps_options : GraphData Num → Options Num
  unfolding time_axis over_time lines_and_points get_elapsed_time_label
  total_tps_options data_of = plain (
      (over_time (lines_and_points true)
        (time_axis data_of.result.granularity (get_elapsed_time_label data_of.result.granularity))
        "Number of transactions / sec" 2 "#legendTotalTPS" "%s at %x was %y transactions / sec")
      ++ (("colors", two_colors) ∷ []))

  unfoldable pub hits_per_second_infos : Infos Num
  unfolding hits_per_second_options
  hits_per_second_infos = record {
    graph = hits_per_second;
    get_options = hits_per_second_options;
    choices = "choicesHitsPerSecond";
    flot = "flotHitsPerSecond";
    overview = some "overviewHitsPerSecond";
    sets_ticks = false;
  }

  unfoldable pub codes_per_second_infos : Infos Num
  unfolding codes_per_second_options
  codes_per_second_infos = record {
    graph = codes_per_second;
    get_options = codes_per_second_options;
    choices = "choicesCodesPerSecond";
    flot = "flotCodesPerSecond";
    overview = some "overviewCodesPerSecond";
    sets_ticks = false;
  }

  unfoldable pub transactions_per_second_infos : Infos Num
  unfolding transactions_per_second_options
  transactions_per_second_infos = record {
    graph = transactions_per_second;
    get_options = transactions_per_second_options;
    choices = "choicesTransactionsPerSecond";
    flot = "flotTransactionsPerSecond";
    overview = some "overviewTransactionsPerSecond";
    sets_ticks = false;
  }

  unfoldable pub total_tps_infos : Infos Num
  unfolding total_tps_options
  total_tps_infos = record {
    graph = total_tps;
    get_options = total_tps_options;
    choices = "choicesTotalTPS";
    flot = "flotTotalTPS";
    overview = some "overviewTotalTPS";
    sets_ticks = false;
  }

module _ {Num : Type 0} ⦃num : JsNumber Num⦄ (browser : Browser Num) where
  unfoldable pub refresh_hits_per_second : (fix_timestamps : Bool) → Action (Page Num) (Unit {0})
  unfolding refresh hits_per_second_infos
  refresh_hits_per_second fix_timestamps =
      refresh browser hits_per_second_infos false false none fix_timestamps
        "#footerHitsPerSecond .legendColorBox > div"

  unfoldable pub refresh_codes_per_second : (fix_timestamps : Bool) → Action (Page Num) (Unit {0})
  unfolding refresh codes_per_second_infos
  refresh_codes_per_second fix_timestamps =
      refresh browser codes_per_second_infos false false none fix_timestamps
        "#footerCodesPerSecond .legendColorBox > div"

  unfoldable pub refresh_transactions_per_second :
      (fix_timestamps : Bool) → Action (Page Num) (Unit {0})
  unfolding refresh transactions_per_second_infos
  refresh_transactions_per_second fix_timestamps =
      refresh browser transactions_per_second_infos false false (some "#bodyTransactionsPerSecond")
        fix_timestamps "#footerTransactionsPerSecond .legendColorBox > div"

  unfoldable pub refresh_total_tps : (fix_timestamps : Bool) → Action (Page Num) (Unit {0})
  unfolding refresh total_tps_infos
  refresh_total_tps fix_timestamps =
      refresh browser total_tps_infos false true none fix_timestamps
        "#footerTotalTPS .legendColorBox > div"
