-- ===== src/Dashboard/Early.antt =====
-- Samples that are hidden or shown before a panel of engines/jmeter/html-report/content/js/graph.js is
-- opened: the graph is then drawn with its time stamps as they are, and stays so.
use p_loadtesting.Dashboard.Graphs.Spread.{
  response_time_percentiles_infos, refresh_response_time_percentiles,
  response_time_distribution_infos, refresh_response_time_distribution,
  synthetic_response_time_distribution_infos, refresh_synthetic_response_time_distribution,
}
use p_loadtesting.Dashboard.Graphs.Load.{
  active_threads_over_time_infos, refresh_active_threads_over_time,
  bytes_throughput_over_time_infos, refresh_bytes_throughput_over_time,
}
use p_loadtesting.Dashboard.Graphs.Against.{
  time_vs_threads_infos, refresh_time_vs_threads, response_time_vs_request_infos,
  refresh_response_time_vs_request, latencies_vs_request_infos, refresh_latencies_vs_request,
}
use p_loadtesting.Dashboard.Graphs.Times.{
  response_times_over_time_infos, refresh_response_time_over_time, latencies_over_time_infos,
  refresh_latencies_over_time, connect_time_over_time_infos, refresh_connect_time_over_time,
  response_time_percentiles_over_time_infos, refresh_response_time_percentiles_over_time,
}
use p_loadtesting.Dashboard.Graphs.Rates.{
  hits_per_second_infos, refresh_hits_per_second, codes_per_second_infos, refresh_codes_per_second,
  transactions_per_second_infos, refresh_transactions_per_second, total_tps_infos,
  refresh_total_tps,
}
use p_loadtesting.Prelude.{
  String, ◌≡◌, refl, ap, sym, ◌∙◌, subst, Bool, true, false, not, Option, none, some, List, ◌∷◌,
  inl, inr, if◌then◌else◌,
}
use p_loadtesting.Dashboard.Actions.{set_checked, open_panel, panels, collapse, toggle_all}
use p_loadtesting.Dashboard.Apart.{data_of, is_plotted}
use p_loadtesting.Dashboard.Data.{Series, Browser}
use p_loadtesting.Dashboard.Drawing.{HasRoom, IsPlotted}
use p_loadtesting.Dashboard.Frames.{OnOption}
use p_loadtesting.Dashboard.Own.{time_zone, IsMoved, refresh-IsRefreshed}
use p_loadtesting.Dashboard.Page.{
  Graph, Event, label_color, emit, listed, response_time_percentiles, response_time_distribution,
  synthetic_response_time_distribution, active_threads_over_time, time_vs_threads,
  bytes_throughput_over_time, response_times_over_time, latencies_over_time, connect_time_over_time,
  response_time_percentiles_over_time, response_time_vs_request, latencies_vs_request,
  hits_per_second, codes_per_second, transactions_per_second, total_tps, Page, is_graph,
  legend_disabled, with_event, set_boxes,
}
use p_loadtesting.Dashboard.Points.{Moved, Moved-refl}
use p_loadtesting.Dashboard.Refresh.{refresh}
use p_loadtesting.Dashboard.Safety.{infos_of}
use p_loadtesting.Dashboard.Toggles.{legends-refresh}
use p_loadtesting.Js.Action.{continue}
use p_loadtesting.Js.Outcome.{Outcome, returned, threw}
use p_loadtesting.Js.Number.{JsNumber}

-- The panel that `collapse` opens with a graph.
abbrev pub panel_of : Graph → Option String
panel_of response_time_percentiles = none
panel_of response_time_distribution = some "bodyResponseTimeDistribution"
panel_of synthetic_response_time_distribution = some "bodySyntheticResponseTimeDistribution"
panel_of active_threads_over_time = some "bodyActiveThreadsOverTime"
panel_of time_vs_threads = some "bodyTimeVsThreads"
panel_of bytes_throughput_over_time = some "bodyBytesThroughputOverTime"
panel_of response_times_over_time = none
panel_of latencies_over_time = some "bodyLatenciesOverTime"
panel_of connect_time_over_time = some "bodyConnectTimeOverTime"
panel_of response_time_percentiles_over_time = some "bodyResponseTimePercentilesOverTime"
panel_of response_time_vs_request = some "bodyResponseTimeVsRequest"
panel_of latencies_vs_request = some "bodyLatenciesVsRequest"
panel_of hits_per_second = none
panel_of codes_per_second = some "bodyCodesPerSecond"
panel_of transactions_per_second = some "bodyTransactionsPerSecond"
panel_of total_tps = some "bodyTotalTPS"

module _ {Num : Type 0} ⦃num : JsNumber Num⦄ (browser : Browser Num) where
  -- Opening the panel of a graph that has a plot draws nothing.
  collapse-graphs :
      (g : Graph) (q : Page Num)
      → is_plotted g q ≡ true
      → OnOption
          (λ id.
            ((collapse browser id false q).1.graphs ≡ q.graphs)
            × ((collapse browser id false q).1.plots ≡ q.plots))
          (panel_of g)
  unfolding collapse panels open_panel is_graph refresh_response_time_percentiles
      response_time_percentiles_infos refresh_response_time_distribution
      response_time_distribution_infos refresh_synthetic_response_time_distribution
      synthetic_response_time_distribution_infos refresh_active_threads_over_time
      active_threads_over_time_infos refresh_time_vs_threads time_vs_threads_infos
      refresh_bytes_throughput_over_time bytes_throughput_over_time_infos
      refresh_response_time_over_time response_times_over_time_infos refresh_latencies_over_time
      latencies_over_time_infos refresh_connect_time_over_time connect_time_over_time_infos
      refresh_response_time_percentiles_over_time response_time_percentiles_over_time_infos
      refresh_response_time_vs_request response_time_vs_request_infos refresh_latencies_vs_request
      latencies_vs_request_infos refresh_hits_per_second hits_per_second_infos
      refresh_codes_per_second codes_per_second_infos refresh_transactions_per_second
      transactions_per_second_infos refresh_total_tps total_tps_infos
  collapse-graphs response_time_percentiles q e = tt
  collapse-graphs response_time_distribution q e = rw e (refl, refl)
  collapse-graphs synthetic_response_time_distribution q e = rw e (refl, refl)
  collapse-graphs active_threads_over_time q e = rw e (refl, refl)
  collapse-graphs time_vs_threads q e = rw e (refl, refl)
  collapse-graphs bytes_throughput_over_time q e = rw e (refl, refl)
  collapse-graphs response_times_over_time q e = tt
  collapse-graphs latencies_over_time q e = rw e (refl, refl)
  collapse-graphs connect_time_over_time q e = rw e (refl, refl)
  collapse-graphs response_time_percentiles_over_time q e = rw e (refl, refl)
  collapse-graphs response_time_vs_request q e = rw e (refl, refl)
  collapse-graphs latencies_vs_request q e = rw e (refl, refl)
  collapse-graphs hits_per_second q e = tt
  collapse-graphs codes_per_second q e = rw e (refl, refl)
  collapse-graphs transactions_per_second q e = rw e (refl, refl)
  collapse-graphs total_tps q e = rw e (refl, refl)

  -- A graph that has a plot, with its points where they were.
  abbrev IsUnmoved : Graph → List (Series Num) → Page Num → Type 0
  IsUnmoved g original p = (is_plotted g p ≡ true) × IsMoved 0 original g p

  emit-IsUnmoved :
      (g : Graph) (original : List (Series Num)) (r : Outcome (Unit {0}) × Page Num) (e : Event Num)
      → IsUnmoved g original r.1
      → IsUnmoved g original (continue r (λ _. emit e)).1
  unfolding is_graph
  emit-IsUnmoved g original (returned _, q) e s = s
  emit-IsUnmoved g original (threw, q) e s = s

  refresh-IsUnmoved :
      (g : Graph) (a : Series Num) (ss : List (Series Num)) (no_match ignore : Bool)
      (body : Option String) (legend : String) (q : Page Num)
      → HasRoom browser g
      → IsMoved 0 (a ∷ ss) g q
      → IsUnmoved g (a ∷ ss) (refresh browser (infos_of g) no_match ignore body false legend q).1
  refresh-IsUnmoved g a ss no_match ignore body legend q room m =
      elim (refresh-IsRefreshed browser g 0 (a ∷ ss) no_match ignore body false legend q room m) [
        | inl r ↦ r
        | inr r ↦ absurd (subst (Moved 0 time_zone (a ∷ ss)) (r.1.1) (r.1.0 0))
      ]

  toggled-IsUnmoved :
      (g : Graph) (checked : Bool) (p : Page Num) (a : Series Num) (ss : List (Series Num))
      → IsMoved 0 (a ∷ ss) g p
      → HasRoom browser g
      → IsUnmoved g (a ∷ ss) (toggle_all browser (infos_of {Num = Num} g).choices checked p).1
  unfolding toggle_all is_graph
  toggled-IsUnmoved g checked p a ss m room =
      let (no_match, (ignore, (body, (legend, c)))) = legends-refresh browser g (a ∷ ss) g in
      let id = (infos_of {Num = Num} g).choices in
      let q =
        with_event (legend_disabled id (not checked))
          (set_boxes id (set_checked checked (p.boxes id)) p) in
      rw c (
        emit-IsUnmoved g (a ∷ ss) (refresh browser (infos_of g) no_match ignore body false legend q)
          (label_color id (if checked then "black" else "#818181"))
          (refresh-IsUnmoved g a ss no_match ignore body legend q room m))

  on_panel :
      {P Q : String → Type 0} (o : Option String)
      → ((id : String) → P id → Q id)
      → OnOption P o
      → OnOption Q o
  on_panel none f h = tt
  on_panel (some id) f h = f id h

  opened-IsUnmoved :
      (g : Graph) (original : List (Series Num)) (q : Page Num)
      → IsUnmoved g original q
      → OnOption (λ id. IsUnmoved g original (collapse browser id false q).1) (panel_of g)
  unfolding is_graph
  opened-IsUnmoved g original q s =
      on_panel (panel_of g)
        (λ id h. (
          ap (listed (infos_of {Num = Num} g).flot) h.1 ∙ s.0,
          subst (λ graphs. Moved 0 time_zone original (graphs g).result.series) (sym h.0) s.1,
        ))
        (collapse-graphs g q s.0)

  -- Take a graph that has series and whose elements have room, whether or not it has a plot yet,
  -- and that has a panel; of the graphs without one nothing is said. When all its samples are
  -- hidden or shown and its panel is then opened, it has a plot, its series have the labels of
  -- before in their order, and the points of each are those of before in some order, with no hours
  -- added.
  pub toggled_first-IsMoved :
      (g : Graph) (checked : Bool) (p : Page Num) (a : Series Num) (ss : List (Series Num))
      → (data_of g p).result.series ≡ a ∷ ss
      → HasRoom browser g
      → OnOption
          (λ id.
            IsPlotted browser g
              (collapse browser id false
                (toggle_all browser (infos_of {Num = Num} g).choices checked p).1).1
            × IsMoved 0
                (a ∷ ss)
                g
                (collapse browser id false
                  (toggle_all browser (infos_of {Num = Num} g).choices checked p).1).1)
          (panel_of g)
  toggled_first-IsMoved g checked p a ss e room = opened-IsUnmoved g (a ∷ ss) _ (
      toggled-IsUnmoved g checked p a ss
        (subst (λ l. Moved 0 time_zone l (data_of g p).result.series) e
          (Moved-refl time_zone (data_of g p).result.series))
        room)
