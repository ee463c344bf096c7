-- ===== src/Dashboard/Refresh.antt =====
-- What the functions `createGraph` and `refresh...` of
-- engines/jmeter/html-report/content/js/graph.js have in common.
use mathlib.Core.List.{◌++◌}
use p_loadtesting.Prelude.{String, Bool, true, false, Option, none, some, List, [], if◌then◌else◌}
use p_loadtesting.Dashboard.Commons.{settings, prepare_options, prepare_overview_options, set_in}
use p_loadtesting.Dashboard.Data.{Series, GraphData, Options, Browser}
use p_loadtesting.Dashboard.Page.{
  Graph, plotted, zoomable, colored, Page, Infos, set_graph, set_boxes, with_event, with_plot,
  update, emit, is_graph, set_empty_graph,
}
use p_loadtesting.Dashboard.Series.{
  with_series, fix_time_stamps, prepare_series, prepare_data, legend_boxes,
}
use p_loadtesting.Js.Action.{Action, pure, lift, ◌>>=◌, ◌>>◌}
use p_loadtesting.Js.Number.{JsNumber}
use p_loadtesting.Js.Outcome.{Outcome, returned, threw}
use p_loadtesting.Js.Value.{Fields}

module _ {Num : Type 0} where
  -- `if(infos.data.result.series.length == 0)`, in the graphs that ask this
  abbrev pub empty_body : Option String → List (Series Num) → Option String
  empty_body (some body) [] = some body
  empty_body _ _ = none

  -- `setGraphZoomable`, of a graph that has an overview
  abbrev pub set_graph_zoomable : String → Option String → Action (Page Num) (Unit {0})
  set_graph_zoomable flot none = pure tt
  set_graph_zoomable flot (some overview) = emit (zoomable flot overview)

module _ {Num : Type 0} ⦃num : JsNumber Num⦄ where
  -- `options.xaxis.ticks = data.result.ticks`, in the one graph that does so
  abbrev pub with_ticks : Bool → GraphData Num → Fields Num → Outcome (Fields Num)
  with_ticks false d options = returned options
  with_ticks true d options = set_in "xaxis" "ticks" d.result.ticks options

module _ {Num : Type 0} ⦃num : JsNumber Num⦄ (browser : Browser Num) where
  -- `$.plot`
  abbrev pub plot : String → List (Series Num) → Options Num → Action (Page Num) (Unit {0})
  plot placeholder dataset options p =
      if browser.fits placeholder
      then (returned tt, with_event (plotted placeholder dataset options) (with_plot placeholder p))
      else (threw, p)

  abbrev pub plot_overview :
      Option String → List (Series Num) → Options Num → Action (Page Num) (Unit {0})
  plot_overview none dataset options = pure tt
  plot_overview (some placeholder) dataset options =
      lift (prepare_overview_options browser options.settings) >>= λ o.
      plot placeholder dataset (record options { settings = o })

  -- The options of `createGraph`, and its calls of `$.plot`.
  unfoldable pub draw :
      Infos Num → GraphData Num → List (Series Num) → Options Num → Action (Page Num) (Unit {0})
  unfolding prepare_options set_in prepare_overview_options
  draw infos data_of dataset options =
      lift (prepare_options options.settings data_of) >>= λ prepared.
      lift (with_ticks infos.sets_ticks data_of prepared) >>= λ ticked.
      plot infos.flot dataset (record options { settings = ticked })
      >> plot_overview infos.overview dataset (record options { settings = ticked })

  -- `createGraph`
  unfoldable pub create_graph : Infos Num → Action (Page Num) (Unit {0})
  unfolding prepare_data draw
  create_graph infos p =
      let data_of = p.graphs infos.graph in
      draw infos data_of (prepare_data data_of.result.series (p.boxes infos.choices))
        (infos.get_options data_of) p

  -- `createLegend`: the boxes are appended to the container.
  unfoldable pub create_legend : Infos Num → Page Num → Page Num
  unfolding legend_boxes
  create_legend infos p =
      set_boxes infos.choices
        (p.boxes infos.choices ++ legend_boxes browser (p.graphs infos.graph).result.series) p

  -- The end of a refresh, for a graph that has no plot.
  unfoldable pub first_graph : Infos Num → (legend : String) → Action (Page Num) (Unit {0})
  unfolding create_graph create_legend
  first_graph infos legend =
      update (create_legend infos)
      >> create_graph infos
      >> set_graph_zoomable infos.flot infos.overview
      >> emit (colored legend infos.choices)

  -- The end of a refresh: a graph is created anew, with a legend where it has no plot.
  unfoldable pub show_graph : Infos Num → (legend : String) → Action (Page Num) (Unit {0})
  unfolding is_graph create_graph first_graph
  show_graph infos legend p =
      if is_graph infos.flot p then create_graph infos p else first_graph infos legend p

  unfoldable pub prepare_graph : Graph → (no_match_color ignore_filter : Bool) → Page Num → Page Num
  unfolding prepare_series
  prepare_graph g no_match_color ignore_filter p =
      set_graph g (prepare_series browser settings no_match_color ignore_filter (p.graphs g)) p

  -- `if(fixTimestamps) fixTimeStamps(infos.data.result.series, 28800000)`
  unfoldable pub fix_graph : Graph → (fix_timestamps : Bool) → Page Num → Page Num
  unfolding fix_time_stamps
  fix_graph g fix_timestamps p =
      if fix_timestamps
      then set_graph g
          (with_series (fix_time_stamps browser (num.of_ℕ 28800000) (p.graphs g).result.series)
            (p.graphs g))
          p
      else p

  -- What follows `prepareSeries`; the element is that of a message that nothing is shown.
  unfoldable pub finish :
      Infos Num
      → (fix_timestamps : Bool) → (legend : String) → (element : Option String)
      → Action (Page Num) (Unit {0})
  unfolding set_empty_graph fix_graph show_graph
  finish infos fix_timestamps legend none p =
      show_graph infos legend (fix_graph infos.graph fix_timestamps p)
  finish infos fix_timestamps legend (some element) p = set_empty_graph element p

  unfoldable pub refresh :
      Infos Num
      → (no_match_color ignore_filter : Bool) → (body : Option String) → (fix_timestamps : Bool)
      → (legend : String) → Action (Page Num) (Unit {0})
  unfolding prepare_graph finish
  refresh infos no_match_color ignore_filter body fix_timestamps legend p =
      let prepared = prepare_graph infos.graph no_match_color ignore_filter p in
      finish infos fix_timestamps legend
        (empty_body body (prepared.graphs infos.graph).result.series) prepared
