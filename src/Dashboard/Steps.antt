-- ===== src/Dashboard/Steps.antt =====
-- Opening a panel of engines/jmeter/html-report/content/js/graph.js, closing it, hiding and showing
-- samples: what each does to the time stamps of a graph.
use p_loadtesting.Dashboard.Graphs.Spread.{
  response_time_percentiles_infos, refresh_response_time_percentiles,
  response_time_distribution_infos, refresh_response_time_distribution,
  synthetic_response_time_distribution_infos, refresh_synthetic_response_time_distribution,
}
use p_loadtesting.Dashboard.Graphs.Load.{
  active_threads_over_time_infos, refresh_active_threads_over_time,
  bytes_throughput_over_time_infos, refresh_bytes_throughput_over_time,
}
use p_loadtesting.Dashboard.Graphs.Against.{
  time_vs_threads_infos, refresh_time_vs_threads, response_time_vs_request_infos,
  refresh_response_time_vs_request, latencies_vs_request_infos, refresh_latencies_vs_request,
}
use p_loadtesting.Dashboard.Graphs.Times.{
  response_times_over_time_infos, refresh_response_time_over_time, latencies_over_time_infos,
  refresh_latencies_over_time, connect_time_over_time_infos, refresh_connect_time_over_time,
  response_time_percentiles_over_time_infos, refresh_response_time_percentiles_over_time,
}
use p_loadtesting.Dashboard.Graphs.Rates.{
  hits_per_second_infos, refresh_hits_per_second, codes_per_second_infos, refresh_codes_per_second,
  transactions_per_second_infos, refresh_transactions_per_second, total_tps_infos,
  refresh_total_tps,
}
use p_loadtesting.Prelude.{
  String, ◌≡◌, sym, subst, Bool, true, false, Option, none, some, List, [], ◌∷◌, str_eq, Bool-cases,
  inl, inr, All,
}
use p_loadtesting.Dashboard.Actions.{choose, open_panel, perform, panels, collapse}
use p_loadtesting.Dashboard.Apart.{is_plotted}
use p_loadtesting.Dashboard.Elsewhere.{index-injective}
use p_loadtesting.Dashboard.Data.{Series, Browser}
use p_loadtesting.Dashboard.Drawing.{HasRoom}
use p_loadtesting.Dashboard.Page.{
  Graph, moved_to, response_time_distribution, synthetic_response_time_distribution,
  active_threads_over_time, time_vs_threads, bytes_throughput_over_time, latencies_over_time,
  connect_time_over_time, response_time_percentiles_over_time, response_time_vs_request,
  latencies_vs_request, codes_per_second, transactions_per_second, total_tps, Page, is_graph,
}
use p_loadtesting.Dashboard.Refresh.{refresh}
use p_loadtesting.Dashboard.Safety.{infos_of}
use p_loadtesting.Js.Action.{Action, lift}
use p_loadtesting.Js.Number.{JsNumber}
use p_loadtesting.Js.Outcome.{threw}
use p_loadtesting.Dashboard.Once.{has_time, IsSound, refresh-IsSound, emit-IsSound}

-- What is done to the page keeps the points of a graph where they belong.
pub record Preserves {Num : Type 0} ⦃num : JsNumber Num⦄ (g : Graph) (original : List (Series Num))
    (action : Action (Page Num) (Unit {0})) : Type 0 where
  pub at : (p : Page Num) → IsSound g original p → IsSound g original (action p).1

module _ {Num : Type 0} ⦃num : JsNumber Num⦄ (browser : Browser Num) (g : Graph)
    (original : List (Series Num)) where
  opened-Preserves :
      (h : Graph) (no_match ignore : Bool) (body : Option String) (legend location : String)
      → HasRoom browser g
      → Preserves g original (
          open_panel
            (infos_of {Num = Num} h).flot
            (refresh browser (infos_of h) no_match ignore body (has_time h) legend)
            location)
  unfolding open_panel
  opened-Preserves h no_match ignore body legend location room = record {
    at = λ p s. elim (Bool-cases (is_plotted h p)) [
      | inl e ↦ rw e s
      | inr e ↦ rw e (
          emit-IsSound g original
            (refresh browser (infos_of h) no_match ignore body (has_time h) legend p)
            (moved_to location)
            (refresh-IsSound browser g original h no_match ignore body legend p room
              (λ d. subst (λ x. is_plotted x p ≡ false) (sym (index-injective g h d)) e) s))
    ];
  }

  custom-Preserves :
      (flot location : String)
      → Preserves g original (open_panel {Num = Num} flot (lift threw) location)
  unfolding open_panel
  custom-Preserves flot location = record {
    at = λ p s. elim (Bool-cases (is_graph flot p)) [ inl e ↦ rw e s | inr e ↦ rw e s ];
  }

  panels-Preserves :
      HasRoom browser g → All (λ entry. Preserves g original entry.1) (panels browser)
  unfolding panels refresh_response_time_percentiles response_time_percentiles_infos
      refresh_response_time_distribution response_time_distribution_infos
      refresh_synthetic_response_time_distribution synthetic_response_time_distribution_infos
      refresh_active_threads_over_time active_threads_over_time_infos refresh_time_vs_threads
      time_vs_threads_infos refresh_bytes_throughput_over_time bytes_throughput_over_time_infos
      refresh_response_time_over_time response_times_over_time_infos refresh_latencies_over_time
      latencies_over_time_infos refresh_connect_time_over_time connect_time_over_time_infos
      refresh_response_time_percentiles_over_time response_time_percentiles_over_time_infos
      refresh_response_time_vs_request response_time_vs_request_infos refresh_latencies_vs_request
      latencies_vs_request_infos refresh_hits_per_second hits_per_second_infos
      refresh_codes_per_second codes_per_second_infos refresh_transactions_per_second
      transactions_per_second_infos refresh_total_tps total_tps_infos
  panels-Preserves room = (
    opened-Preserves bytes_throughput_over_time false false none
        "#footerBytesThroughputOverTime .legendColorBox > div" "#bytesThroughputOverTime" room,
    (
      opened-Preserves latencies_over_time false false (some "#bodyLatenciesOverTime")
          "#footerLatenciesOverTime .legendColorBox > div" "#latenciesOverTime" room,
      (
        custom-Preserves "flotCustomGraph" "#responseCustomGraph",
        (
          opened-Preserves connect_time_over_time false false (some "#bodyConnectTimeOverTime")
              "#footerConnectTimeOverTime .legendColorBox > div" "#connectTimeOverTime" room,
          (
            opened-Preserves response_time_percentiles_over_time false false none
                "#footerResponseTimePercentilesOverTime .legendColorBox > div"
                "#responseTimePercentilesOverTime" room,
            (
              opened-Preserves response_time_distribution false false
                  (some "#bodyResponseTimeDistribution")
                  "#footerResponseTimeDistribution .legendColorBox > div"
                  "#responseTimeDistribution" room,
              (
                opened-Preserves synthetic_response_time_distribution true false none
                    "#footerSyntheticResponseTimeDistribution .legendColorBox > div"
                    "#syntheticResponseTimeDistribution" room,
                (
                  opened-Preserves active_threads_over_time false false none
                      "#footerActiveThreadsOverTime .legendColorBox > div" "#activeThreadsOverTime"
                      room,
                  (
                    opened-Preserves time_vs_threads false false (some "#bodyTimeVsThreads")
                        "#footerTimeVsThreads .legendColorBox > div" "#timeVsThreads" room,
                    (
                      opened-Preserves codes_per_second false false none
                          "#footerCodesPerSecond .legendColorBox > div" "#codesPerSecond" room,
                      (
                        opened-Preserves transactions_per_second false false
                            (some "#bodyTransactionsPerSecond")
                            "#footerTransactionsPerSecond .legendColorBox > div"
                            "#transactionsPerSecond" room,
                        (
                          opened-Preserves total_tps false true none
                              "#footerTotalTPS .legendColorBox > div" "#totalTPS" room,
                          (
                            opened-Preserves response_time_vs_request false false none
                                "#footerResponseRimeVsRequest .legendColorBox > div"
                                "#responseTimeVsRequest" room,
                            (
                              opened-Preserves latencies_vs_request false false none
                                  "#footerLatenciesVsRequest .legendColorBox > div"
                                  "#latencyVsRequest" room,
                              tt,
                            ),
                          ),
                        ),
                      ),
                    ),
                  ),
                ),
              ),
            ),
          ),
        ),
      ),
    ),
  )

  perform-IsSound :
      (id : String) (entries : List (String × Action (Page Num) (Unit {0})))
      → All (λ entry. Preserves g original entry.1) entries
      → (p : Page Num) → IsSound g original p
      → IsSound g original (perform (choose id entries) p).1
  perform-IsSound id [] h p s = s
  perform-IsSound id ((key, action) ∷ entries) h p s = elim (Bool-cases (str_eq id key)) [
    | inl e ↦ rw e (h.0.at p s)
    | inr e ↦ rw e (perform-IsSound id entries h.1 p s)
  ]

  pub collapse-IsSound :
      (id : String) (collapsed : Bool) (p : Page Num)
      → HasRoom browser g
      → IsSound g original p
      → IsSound g original (collapse browser id collapsed p).1
  unfolding collapse
  collapse-IsSound id true p room s = s
  collapse-IsSound id false p room s =
      perform-IsSound id (panels browser) (panels-Preserves room) _ s
