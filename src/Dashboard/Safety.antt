-- ===== src/Dashboard/Safety.antt =====
-- The graphs of engines/jmeter/html-report/content/js/graph.js, and that their options have two axes.
use p_loadtesting.Dashboard.Graphs.Spread.{
  response_time_percentiles_infos, response_time_percentiles_options,
  response_time_distribution_infos, response_time_distribution_options,
  synthetic_response_time_distribution_infos, synthetic_response_time_distribution_options,
}
use p_loadtesting.Dashboard.Graphs.Load.{
  active_threads_over_time_infos, active_threads_over_time_options,
  bytes_throughput_over_time_infos, bytes_throughput_over_time_options,
}
use p_loadtesting.Dashboard.Graphs.Against.{
  time_vs_threads_infos, time_vs_threads_options, response_time_vs_request_infos,
  response_time_vs_request_options, latencies_vs_request_infos, latencies_vs_request_options,
}
use p_loadtesting.Dashboard.Graphs.Times.{
  response_times_over_time_infos, response_times_over_time_options, latencies_over_time_infos,
  latencies_over_time_options, connect_time_over_time_infos, connect_time_over_time_options,
  response_time_percentiles_over_time_infos, response_time_percentiles_over_time_options,
}
use p_loadtesting.Dashboard.Graphs.Rates.{
  hits_per_second_infos, hits_per_second_options, codes_per_second_infos, codes_per_second_options,
  transactions_per_second_infos, transactions_per_second_options, total_tps_infos,
  total_tps_options,
}
use p_loadtesting.Prelude.{◌≡◌, refl}
use p_loadtesting.Dashboard.Style.{time_axis, axis_label, legend, over_time, lines_and_points}
use p_loadtesting.Dashboard.Data.{GraphData}
use p_loadtesting.Dashboard.Page.{
  Graph, response_time_percentiles, response_time_distribution,
  synthetic_response_time_distribution, active_threads_over_time, time_vs_threads,
  bytes_throughput_over_time, response_times_over_time, latencies_over_time, connect_time_over_time,
  response_time_percentiles_over_time, response_time_vs_request, latencies_vs_request,
  hits_per_second, codes_per_second, transactions_per_second, total_tps, Infos,
}
use p_loadtesting.Js.Number.{JsNumber}
use p_loadtesting.Js.Value.{Fields, object, get_field}

module _ {Num : Type 0} ⦃num : JsNumber Num⦄ where
  abbrev pub infos_of : Graph → Infos Num
  infos_of response_time_percentiles = response_time_percentiles_infos
  infos_of response_time_distribution = response_time_distribution_infos
  infos_of synthetic_response_time_distribution = synthetic_response_time_distribution_infos
  infos_of active_threads_over_time = active_threads_over_time_infos
  infos_of time_vs_threads = time_vs_threads_infos
  infos_of bytes_throughput_over_time = bytes_throughput_over_time_infos
  infos_of response_times_over_time = response_times_over_time_infos
  infos_of latencies_over_time = latencies_over_time_infos
  infos_of connect_time_over_time = connect_time_over_time_infos
  infos_of response_time_percentiles_over_time = response_time_percentiles_over_time_infos
  infos_of response_time_vs_request = response_time_vs_request_infos
  infos_of latencies_vs_request = latencies_vs_request_infos
  infos_of hits_per_second = hits_per_second_infos
  infos_of codes_per_second = codes_per_second_infos
  infos_of transactions_per_second = transactions_per_second_infos
  infos_of total_tps = total_tps_infos

  -- Options whose two axes are objects.
  abbrev pub HasAxes : Fields Num → Type 0
  HasAxes options =
      ((x : Fields Num) × (get_field "xaxis" options ≡ object x))
      × ((y : Fields Num) × (get_field "yaxis" options ≡ object y))

  pub get_options-HasAxes :
      (g : Graph) (d : GraphData Num) → HasAxes ((infos_of g).get_options d).settings
  unfolding time_axis axis_label legend over_time lines_and_points response_time_percentiles_infos
      response_time_percentiles_options response_time_distribution_infos
      response_time_distribution_options synthetic_response_time_distribution_infos
      synthetic_response_time_distribution_options active_threads_over_time_infos
      active_threads_over_time_options time_vs_threads_infos time_vs_threads_options
      bytes_throughput_over_time_infos bytes_throughput_over_time_options
      response_times_over_time_infos response_times_over_time_options latencies_over_time_infos
      latencies_over_time_options connect_time_over_time_infos connect_time_over_time_options
      response_time_percentiles_over_time_infos response_time_percentiles_over_time_options
      response_time_vs_request_infos response_time_vs_request_options latencies_vs_request_infos
      latencies_vs_request_options hits_per_second_infos hits_per_second_options
      codes_per_second_infos codes_per_second_options transactions_per_second_infos
      transactions_per_second_options total_tps_infos total_tps_options
  get_options-HasAxes response_time_percentiles d = ((_, refl), (_, refl))
  get_options-HasAxes response_time_distribution d = ((_, refl), (_, refl))
  get_options-HasAxes synthetic_response_time_distribution d = ((_, refl), (_, refl))
  get_options-HasAxes active_threads_over_time d = ((_, refl), (_, refl))
  get_options-HasAxes time_vs_threads d = ((_, refl), (_, refl))
  get_options-HasAxes bytes_throughput_over_time d = ((_, refl), (_, refl))
  get_options-HasAxes response_times_over_time d = ((_, refl), (_, refl))
  get_options-HasAxes latencies_over_time d = ((_, refl), (_, refl))
  get_options-HasAxes connect_time_over_time d = ((_, refl), (_, refl))
  get_options-HasAxes response_time_percentiles_over_time d = ((_, refl), (_, refl))
  get_options-HasAxes response_time_vs_request d = ((_, refl), (_, refl))
  get_options-HasAxes latencies_vs_request d = ((_, refl), (_, refl))
  get_options-HasAxes hits_per_second d = ((_, refl), (_, refl))
  get_options-HasAxes codes_per_second d = ((_, refl), (_, refl))
  get_options-HasAxes transactions_per_second d = ((_, refl), (_, refl))
  get_options-HasAxes total_tps d = ((_, refl), (_, refl))
