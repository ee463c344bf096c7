-- ===== src/Dashboard/Toggles.antt =====
-- Hiding and showing samples of a graph of engines/jmeter/html-report/content/js/graph.js that has a
-- plot: what this does to the time stamps of the graphs.
use p_loadtesting.Dashboard.Graphs.Spread.{
  response_time_percentiles_infos, refresh_response_time_percentiles,
  response_time_distribution_infos, refresh_response_time_distribution,
  synthetic_response_time_distribution_infos, refresh_synthetic_response_time_distribution,
}
use p_loadtesting.Dashboard.Graphs.Load.{
  active_threads_over_time_infos, refresh_active_threads_over_time,
  bytes_throughput_over_time_infos, refresh_bytes_throughput_over_time,
}
use p_loadtesting.Dashboard.Graphs.Against.{
  time_vs_threads_infos, refresh_time_vs_threads, response_time_vs_request_infos,
  refresh_response_time_vs_request, latencies_vs_request_infos, refresh_latencies_vs_request,
}
use p_loadtesting.Dashboard.Graphs.Times.{
  response_times_over_time_infos, refresh_response_time_over_time, latencies_over_time_infos,
  refresh_latencies_over_time, connect_time_over_time_infos, refresh_connect_time_over_time,
  response_time_percentiles_over_time_infos, refresh_response_time_percentiles_over_time,
}
use p_loadtesting.Dashboard.Graphs.Rates.{
  hits_per_second_infos, refresh_hits_per_second, codes_per_second_infos, refresh_codes_per_second,
  transactions_per_second_infos, refresh_transactions_per_second, total_tps_infos,
  refresh_total_tps,
}
use mathlib.Core.Bool.{true≢false}
use p_loadtesting.Prelude.{
  ℕ, String, ◌≡◌, refl, sym, ◌∙◌, subst, Bool, true, false, not, Option, none, some, List,
  Bool-cases, inl, inr, ◌==◌, ==_iff, if◌then◌else◌,
}
use p_loadtesting.Dashboard.Actions.{choose, legends, set_checked, toggle_all, click_box, flip}
use p_loadtesting.Dashboard.Apart.{
  data_of, is_plotted, data_of-IsApart, is_plotted-IsApart, everywhere,
}
use p_loadtesting.Dashboard.Elsewhere.{
  index-injective, IsElsewhere, flot-IsElsewhere, overview-IsElsewhere, drawn_in-overview,
}
use p_loadtesting.Dashboard.Data.{Series, Browser}
use p_loadtesting.Dashboard.Drawing.{HasRoom, create_graph-draws}
use p_loadtesting.Dashboard.Frames.{Keeps-create_graph}
use p_loadtesting.Dashboard.Page.{
  Graph, legend_disabled, label_color, response_time_percentiles, response_time_distribution,
  synthetic_response_time_distribution, active_threads_over_time, time_vs_threads,
  bytes_throughput_over_time, response_times_over_time, latencies_over_time, connect_time_over_time,
  response_time_percentiles_over_time, response_time_vs_request, latencies_vs_request,
  hits_per_second, codes_per_second, transactions_per_second, total_tps, index, Page, is_graph,
  with_event, set_boxes,
}
use p_loadtesting.Dashboard.Refresh.{refresh, create_graph}
use p_loadtesting.Dashboard.Safety.{infos_of}
use p_loadtesting.Js.Number.{JsNumber}
use p_loadtesting.Dashboard.Once.{IsSound, emit-IsSound, again-IsSound}

module _ {Num : Type 0} ⦃num : JsNumber Num⦄ (browser : Browser Num) (g : Graph)
    (original : List (Series Num)) where
  pub legends-refresh :
      (h : Graph)
      → (no_match : Bool) × ((ignore : Bool) × ((body : Option String) × ((legend : String)
              × (choose (infos_of {Num = Num} h).choices (legends browser)
                  ≡ some (refresh browser (infos_of h) no_match ignore body false legend)))))
  unfolding legends refresh_response_time_percentiles response_time_percentiles_infos
      refresh_response_time_distribution response_time_distribution_infos
      refresh_synthetic_response_time_distribution synthetic_response_time_distribution_infos
      refresh_active_threads_over_time active_threads_over_time_infos refresh_time_vs_threads
      time_vs_threads_infos refresh_bytes_throughput_over_time bytes_throughput_over_time_infos
      refresh_response_time_over_time response_times_over_time_infos refresh_latencies_over_time
      latencies_over_time_infos refresh_connect_time_over_time connect_time_over_time_infos
      refresh_response_time_percentiles_over_time response_time_percentiles_over_time_infos
      refresh_response_time_vs_request response_time_vs_request_infos refresh_latencies_vs_request
      latencies_vs_request_infos refresh_hits_per_second hits_per_second_infos
      refresh_codes_per_second codes_per_second_infos refresh_transactions_per_second
      transactions_per_second_infos refresh_total_tps total_tps_infos
  legends-refresh response_time_percentiles = (
    false,
    (
      false,
      (
        (some "#bodyResponseTimePercentiles"),
        ("#bodyResponseTimePercentiles .legendColorBox > div", refl),
      ),
    ),
  )
  legends-refresh response_time_distribution = (
    false,
    (
      false,
      (
        (some "#bodyResponseTimeDistribution"),
        ("#footerResponseTimeDistribution .legendColorBox > div", refl),
      ),
    ),
  )
  legends-refresh synthetic_response_time_distribution = (
    true,
    (false, (none, ("#footerSyntheticResponseTimeDistribution .legendColorBox > div", refl))),
  )
  legends-refresh active_threads_over_time =
      (false, (false, (none, ("#footerActiveThreadsOverTime .legendColorBox > div", refl))))
  legends-refresh time_vs_threads = (
    false,
    (false, ((some "#bodyTimeVsThreads"), ("#footerTimeVsThreads .legendColorBox > div", refl))),
  )
  legends-refresh bytes_throughput_over_time =
      (false, (false, (none, ("#footerBytesThroughputOverTime .legendColorBox > div", refl))))
  legends-refresh response_times_over_time = (
    false,
    (
      false,
      (
        (some "#bodyResponseTimeOverTime"),
        ("#footerResponseTimesOverTime .legendColorBox > div", refl),
      ),
    ),
  )
  legends-refresh latencies_over_time = (
    false,
    (
      false,
      ((some "#bodyLatenciesOverTime"), ("#footerLatenciesOverTime .legendColorBox > div", refl)),
    ),
  )
  legends-refresh connect_time_over_time = (
    false,
    (
      false,
      (
        (some "#bodyConnectTimeOverTime"),
        ("#footerConnectTimeOverTime .legendColorBox > div", refl),
      ),
    ),
  )
  legends-refresh response_time_percentiles_over_time = (
    false,
    (false, (none, ("#footerResponseTimePercentilesOverTime .legendColorBox > div", refl))),
  )
  legends-refresh response_time_vs_request =
      (false, (false, (none, ("#footerResponseRimeVsRequest .legendColorBox > div", refl))))
  legends-refresh latencies_vs_request =
      (false, (false, (none, ("#footerLatenciesVsRequest .legendColorBox > div", refl))))
  legends-refresh hits_per_second =
      (false, (false, (none, ("#footerHitsPerSecond .legendColorBox > div", refl))))
  legends-refresh codes_per_second =
      (false, (false, (none, ("#footerCodesPerSecond .legendColorBox > div", refl))))
  legends-refresh transactions_per_second = (
    false,
    (
      false,
      (
        (some "#bodyTransactionsPerSecond"),
        ("#footerTransactionsPerSecond .legendColorBox > div", refl),
      ),
    ),
  )
  legends-refresh total_tps =
      (false, (true, (none, ("#footerTotalTPS .legendColorBox > div", refl))))

  pub toggle_all-IsSound :
      (h : Graph) (checked : Bool) (p : Page Num)
      → HasRoom browser g
      → is_plotted h p ≡ true
      → IsSound g original p
      → IsSound g original (toggle_all browser (infos_of {Num = Num} h).choices checked p).1
  unfolding toggle_all is_graph
  toggle_all-IsSound h checked p room plotted s =
      let (no_match, (ignore, (body, (legend, e)))) = legends-refresh h in
      let id = (infos_of {Num = Num} h).choices in
      let q =
        with_event (legend_disabled id (not checked))
          (set_boxes id (set_checked checked (p.boxes id)) p) in
      rw e (
        emit-IsSound g original (refresh browser (infos_of h) no_match ignore body false legend q)
          (label_color id (if checked then "black" else "#818181"))
          (again-IsSound browser g original h no_match ignore body legend q room plotted s))

  created-is_plotted :
      (h : Graph) (p : Page Num)
      → HasRoom browser g
      → is_plotted h p ≡ true
      → is_plotted g (create_graph browser (infos_of h) p).1 ≡ is_plotted g p
  unfolding is_graph
  created-is_plotted h p room plotted = elim (Bool-cases (index g == index h)) [
    | inl e ↦
        subst
          (λ x.
            is_plotted x p ≡ true
            → is_plotted g (create_graph browser (infos_of x) p).1 ≡ is_plotted g p)
          (index-injective g h ((==_iff (index g) (index h)).0 e))
          (λ own. (create_graph-draws browser g p room).1 ∙ sym own) plotted
    | inr e ↦
        let other =
          λ (d : index g ≡ index h). true≢false (sym ((==_iff (index g) (index h)).1 d) ∙ e) in
        (Keeps-create_graph browser (is_plotted g) (IsElsewhere Num g) (is_plotted-IsApart g)
            (infos_of h) (flot-IsElsewhere Num g h (λ d. other (sym d)))
            (overview-IsElsewhere Num g (infos_of {Num = Num} h).overview
              (drawn_in-overview Num h))).at
          p
  ]

  create_graph-IsSound :
      (h : Graph) (p : Page Num)
      → HasRoom browser g
      → is_plotted h p ≡ true
      → IsSound g original p
      → IsSound g original (create_graph browser (infos_of h) p).1
  create_graph-IsSound h p room plotted s = rw (created-is_plotted h p room plotted) (
      rw
        ((Keeps-create_graph browser (data_of g) (λ _. Unit {0}) (data_of-IsApart g) (infos_of h) tt
            (everywhere (infos_of {Num = Num} h).overview)).at
          p)
        s)

  pub click_box-IsSound :
      (h : Graph) (i : ℕ) (p : Page Num)
      → HasRoom browser g
      → is_plotted h p ≡ true
      → IsSound g original p
      → IsSound g original (click_box browser (infos_of h) i p).1
  unfolding click_box is_graph
  click_box-IsSound h i p room plotted s =
      let id = (infos_of {Num = Num} h).choices in
      create_graph-IsSound h (set_boxes id (flip i (p.boxes id)) p) room plotted s
