-- ===== src/Dashboard/Graphs/Against.antt =====
-- engines/jmeter/html-report/content/js/graph.js: the graphs of times against threads and requests.
use mathlib.Core.List.{◌++◌}
use p_loadtesting.Prelude.{true, false, none, some, [], ◌∷◌}
use p_loadtesting.Dashboard.Data.{GraphData, Options, Browser}
use p_loadtesting.Dashboard.Page.{
  time_vs_threads, response_time_vs_request, latencies_vs_request, Page, Infos,
}
use p_loadtesting.Dashboard.Refresh.{refresh}
use p_loadtesting.Dashboard.Style.{axis_label, lines_and_points, two_colors, plain, over_time}
use p_loadtesting.Js.Action.{Action}
use p_loadtesting.Js.Number.{JsNumber}

module _ {Num : Type 0} ⦃num : JsNumber Num⦄ where
  unfoldable pub time_vs_threads_options : GraphData Num → Options Num
  unfolding axis_label over_time lines_and_points
  time_vs_threads_options _ = plain (
      over_time (lines_and_points true) (axis_label "Number of active threads")
        "Average response times in ms" 2 "#legendTimeVsThreads"
        "%s: At %x.2 active threads, Average response time was %y.2 ms")

  unfoldable pub response_time_vs_request_options : GraphData Num → Options Num
  unfolding axis_label over_time lines_and_points
  response_time_vs_request_options _ = plain (
      (over_time (lines_and_points false) (axis_label "Global number of requests per second")
        "Median Response Time in ms" 2 "#legendResponseTimeVsRequest"
        "%s : Median response time at %x req/s was %y ms")
      ++ (("colors", two_colors) ∷ []))

  unfoldable pub latencies_vs_request_options : GraphData Num → Options Num
  unfolding axis_label over_time lines_and_points
  latencies_vs_request_options _ = plain (
      (over_time (lines_and_points false) (axis_label "Global number of requests per second")
        "Median Latency in ms" 2 "#legendLatencyVsRequest"
        "%s : Median Latency time at %x req/s was %y ms")
      ++ (("colors", two_colors) ∷ []))

  unfoldable pub time_vs_threads_infos : Infos Num
  unfolding time_vs_threads_options
  time_vs_threads_infos = record {
    graph = time_vs_threads;
    get_options = time_vs_threads_options;
    choices = "choicesTimeVsThreads";
    flot = "flotTimesVsThreads";
    overview = some "overviewTimesVsThreads";
    sets_ticks = false;
  }

  unfoldable pub response_time_vs_request_infos : Infos Num
  unfolding response_time_vs_request_options
  response_time_vs_request_infos = record {
    graph = response_time_vs_request;
    get_options = response_time_vs_request_options;
    choices = "choicesResponseTimeVsRequest";
    flot = "flotResponseTimeVsRequest";
    overview = some "overviewResponseTimeVsRequest";
    sets_ticks = false;
  }

  unfoldable pub latencies_vs_request_infos : Infos Num
  unfolding latencies_vs_request_options
  latencies_vs_request_infos = record {
    graph = latencies_vs_request;
    get_options = latencies_vs_request_options;
    choices = "choicesLatencyVsRequest";
    flot = "flotLatenciesVsRequest";
    overview = some "overviewLatenciesVsRequest";
    sets_ticks = false;
  }

module _ {Num : Type 0} ⦃num : JsNumber Num⦄ (browser : Browser Num) where
  unfoldable pub refresh_time_vs_threads : Action (Page Num) (Unit {0})
  unfolding refresh time_vs_threads_infos
  refresh_time_vs_threads =
      refresh browser time_vs_threads_infos false false (some "#bodyTimeVsThreads") false
        "#footerTimeVsThreads .legendColorBox > div"

  unfoldable pub refresh_response_time_vs_request : Action (Page Num) (Unit {0})
  unfolding refresh response_time_vs_request_infos
  refresh_response_time_vs_request =
      refresh browser response_time_vs_request_infos false false none false
        "#footerResponseRimeVsRequest .legendColorBox > div"

  unfoldable pub refresh_latencies_vs_request : Action (Page Num) (Unit {0})
  unfolding refresh latencies_vs_request_infos
  refresh_latencies_vs_request =
      refresh browser latencies_vs_request_infos false false none false
        "#footerLatenciesVsRequest .legendColorBox > div"
