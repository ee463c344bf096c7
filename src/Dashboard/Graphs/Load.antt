-- ===== src/Dashboard/Graphs/Load.antt =====
-- engines/jmeter/html-report/content/js/graph.js: the graphs of active threads and bytes over time.
use p_loadtesting.Prelude.{Bool, true, false, none, some, ◌∷◌}
use p_loadtesting.Dashboard.{get_elapsed_time_label}
use p_loadtesting.Dashboard.Data.{GraphData, Options, Browser}
use p_loadtesting.Dashboard.Page.{active_threads_over_time, bytes_throughput_over_time, Page, Infos}
use p_loadtesting.Dashboard.Refresh.{refresh}
use p_loadtesting.Dashboard.Style.{obj, time_axis, lines_and_points, filled, plain, over_time}
use p_loadtesting.Js.Action.{Action}
use p_loadtesting.Js.Number.{JsNumber}
use p_loadtesting.Js.Value.{boolean}

module _ {Num : Type 0} ⦃num : JsNumber Num⦄ where
  unfoldable pub active_threads_over_time_options : GraphData Num → Options Num
  unfolding time_axis over_time lines_and_points get_elapsed_time_label
  active_threads_over_time_options data_of = plain (
      over_time (obj (("stack", boolean true) ∷ filled))
        (time_axis data_of.result.granularity (get_elapsed_time_label data_of.result.granularity))
        "Number of active threads" 6 "#legendActiveThreadsOverTime"
        "%s : At %x there were %y active threads")

  unfoldable pub bytes_throughput_over_time_options : GraphData Num → Options Num
  unfolding time_axis over_time lines_and_points get_elapsed_time_label
  bytes_throughput_over_time_options data_of = plain (
      over_time (lines_and_points true)
        (time_axis data_of.result.granularity (get_elapsed_time_label data_of.result.granularity))
        "Bytes / sec" 2 "#legendBytesThroughputOverTime" "%s at %x was %y")

  unfoldable pub active_threads_over_time_infos : Infos Num
  unfolding active_threads_over_time_options
  active_threads_over_time_infos = record {
    graph = active_threads_over_time;
    get_options = active_threads_over_time_options;
    choices = "choicesActiveThreadsOverTime";
    flot = "flotActiveThreadsOverTime";
    overview = some "overviewActiveThreadsOverTime";
    sets_ticks = false;
  }

  unfoldable pub bytes_throughput_over_time_infos : Infos Num
  unfolding bytes_throughput_over_time_options
  bytes_throughput_over_time_infos = record {
    graph = bytes_throughput_over_time;
    get_options = bytes_throughput_over_time_options;
    choices = "choicesBytesThroughputOverTime";
    flot = "flotBytesThroughputOverTime";
    overview = some "overviewBytesThroughputOverTime";
    sets_ticks = false;
  }

module _ {Num : Type 0} ⦃num : JsNumber Num⦄ (browser : Browser Num) where
  unfoldable pub refresh_active_threads_over_time :
      (fix_timestamps : Bool) → Action (Page Num) (Unit {0})
  unfolding refresh active_threads_over_time_infos
  refresh_active_threads_over_time fix_timestamps =
      refresh browser active_threads_over_time_infos false false none fix_timestamps
        "#footerActiveThreadsOverTime .legendColorBox > div"

  unfoldable pub refresh_bytes_throughput_over_time :
      (fix_timestamps : Bool) → Action (Page Num) (Unit {0})
  unfolding refresh bytes_throughput_over_time_infos
  refresh_bytes_throughput_over_time fix_timestamps =
      refresh browser bytes_throughput_over_time_infos false false none fix_timestamps
        "#footerBytesThroughputOverTime .legendColorBox > div"
