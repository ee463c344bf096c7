-- ===== src/Dashboard/Graphs/Times.antt =====
-- engines/jmeter/html-report/content/js/graph.js: the graphs of response times, latencies and connect times over time.
use p_loadtesting.Prelude.{Bool, true, false, none, some}
use p_loadtesting.Dashboard.{get_elapsed_time_label, get_connect_time_label}
use p_loadtesting.Dashboard.Data.{GraphData, Options, Browser}
use p_loadtesting.Dashboard.Page.{
  response_times_over_time, latencies_over_time, connect_time_over_time,
  response_time_percentiles_over_time, Page, Infos,
}
use p_loadtesting.Dashboard.Refresh.{refresh}
use p_loadtesting.Dashboard.Style.{obj, time_axis, lines_and_points, filled, plain, over_time}
use p_loadtesting.Js.Action.{Action}
use p_loadtesting.Js.Number.{JsNumber}

module _ {Num : Type 0} ⦃num : JsNumber Num⦄ where
  unfoldable pub response_times_over_time_options : GraphData Num → Options Num
  unfolding time_axis over_time lines_and_points get_elapsed_time_label
  response_times_over_time_options data_of = plain (
      over_time (lines_and_points true)
        (time_axis data_of.result.granularity (get_elapsed_time_label data_of.result.granularity))
        "Average response time in ms" 2 "#legendResponseTimesOverTime"
        "%s : at %x Average response time was %y ms")

  unfoldable pub latencies_over_time_options : GraphData Num → Options Num
  unfolding time_axis over_time lines_and_points get_elapsed_time_label
  latencies_over_time_options data_of = plain (
      over_time (lines_and_points true)
        (time_axis data_of.result.granularity (get_elapsed_time_label data_of.result.granularity))
        "Average response latencies in ms" 2 "#legendLatenciesOverTime"
        "%s : at %x Average latency was %y ms")

  unfoldable pub connect_time_over_time_options : GraphData Num → Options Num
  unfolding time_axis over_time lines_and_points get_connect_time_label
  connect_time_over_time_options data_of = plain (
      over_time (lines_and_points true)
        (time_axis data_of.result.granularity (get_connect_time_label data_of.result.granularity))
        "Average Connect Time in ms" 2 "#legendConnectTimeOverTime"
        "%s : at %x Average connect time was %y ms")

  unfoldable pub response_time_percentiles_over_time_options : GraphData Num → Options Num
  unfolding time_axis over_time lines_and_points get_elapsed_time_label
  response_time_percentiles_over_time_options data_of = plain (
      over_time (obj filled)
        (time_axis data_of.result.granularity (get_elapsed_time_label data_of.result.granularity))
        "Response Time in ms" 2 "#legendResponseTimePercentilesOverTime"
        "%s : at %x Response time was %y ms")

  unfoldable pub response_times_over_time_infos : Infos Num
  unfolding response_times_over_time_options
  response_times_over_time_infos = record {
    graph = response_times_over_time;
    get_options = response_times_over_time_options;
    choices = "choicesResponseTimesOverTime";
    flot = "flotResponseTimesOverTime";
    overview = some "overviewResponseTimesOverTime";
    sets_ticks = false;
  }

  unfoldable pub latencies_over_time_infos : Infos Num
  unfolding latencies_over_time_options
  latencies_over_time_infos = record {
    graph = latencies_over_time;
    get_options = latencies_over_time_options;
    choices = "choicesLatenciesOverTime";
    flot = "flotLatenciesOverTime";
    overview = some "overviewLatenciesOverTime";
    sets_ticks = false;
  }

  unfoldable pub connect_time_over_time_infos : Infos Num
  unfolding connect_time_over_time_options
  connect_time_over_time_infos = record {
    graph = connect_time_over_time;
    get_options = connect_time_over_time_options;
    choices = "choicesConnectTimeOverTime";
    flot = "flotConnectTimeOverTime";
    overview = some "overviewConnectTimeOverTime";
    sets_ticks = false;
  }

  unfoldable pub response_time_percentiles_over_time_infos : Infos Num
  unfolding response_time_percentiles_over_time_options
  response_time_percentiles_over_time_infos = record {
    graph = response_time_percentiles_over_time;
    get_options = response_time_percentiles_over_time_options;
    choices = "choicesResponseTimePercentilesOverTime";
    flot = "flotResponseTimePercentilesOverTime";
    overview = some "overviewResponseTimePercentilesOverTime";
    sets_ticks = false;
  }

module _ {Num : Type 0} ⦃num : JsNumber Num⦄ (browser : Browser Num) where
  unfoldable pub refresh_response_time_over_time :
      (fix_timestamps : Bool) → Action (Page Num) (Unit {0})
  unfolding refresh response_times_over_time_infos
  refresh_response_time_over_time fix_timestamps =
      refresh browser response_times_over_time_infos false false (some "#bodyResponseTimeOverTime")
        fix_timestamps "#footerResponseTimesOverTime .legendColorBox > div"

  unfoldable pub refresh_latencies_over_time :
      (fix_timestamps : Bool) → Action (Page Num) (Unit {0})
  unfolding refresh latencies_over_time_infos
  refresh_latencies_over_time fix_timestamps =
      refresh browser latencies_over_time_infos false false (some "#bodyLatenciesOverTime")
        fix_timestamps "#footerLatenciesOverTime .legendColorBox > div"

  unfoldable pub refresh_connect_time_over_time :
      (fix_timestamps : Bool) → Action (Page Num) (Unit {0})
  unfolding refresh connect_time_over_time_infos
  refresh_connect_time_over_time fix_timestamps =
      refresh browser connect_time_over_time_infos false false (some "#bodyConnectTimeOverTime")
        fix_timestamps "#footerConnectTimeOverTime .legendColorBox > div"

  unfoldable pub refresh_response_time_percentiles_over_time :
      (fix_timestamps : Bool) → Action (Page Num) (Unit {0})
  unfolding refresh response_time_percentiles_over_time_infos
  refresh_response_time_percentiles_over_time fix_timestamps =
      refresh browser response_time_percentiles_over_time_infos false false none fix_timestamps
        "#footerResponseTimePercentilesOverTime .legendColorBox > div"
