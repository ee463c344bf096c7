-- ===== src/Dashboard/Actions.antt =====
-- engines/jmeter/html-report/content/js/graph.js: what the page does when it is ready, when a panel
-- is opened or closed, and when all samples of a graph are shown or hidden.
use p_loadtesting.Dashboard.Graphs.Spread.{
  refresh_response_time_percentiles, refresh_response_time_distribution,
  refresh_synthetic_response_time_distribution,
}
use p_loadtesting.Dashboard.Graphs.Load.{
  refresh_active_threads_over_time, refresh_bytes_throughput_over_time,
}
use p_loadtesting.Dashboard.Graphs.Against.{
  refresh_time_vs_threads, refresh_response_time_vs_request, refresh_latencies_vs_request,
}
use p_loadtesting.Dashboard.Graphs.Times.{
  refresh_response_time_over_time, refresh_latencies_over_time, refresh_connect_time_over_time,
  refresh_response_time_percentiles_over_time,
}
use p_loadtesting.Dashboard.Graphs.Rates.{
  refresh_hits_per_second, refresh_codes_per_second, refresh_transactions_per_second,
  refresh_total_tps,
}
use p_loadtesting.Prelude.{
  ℕ, zero, suc, String, Bool, true, false, not, Option, none, some, List, [], ◌∷◌, str_eq,
  if◌then◌else◌,
}
use p_loadtesting.Dashboard.Data.{Box, Browser}
use p_loadtesting.Dashboard.Page.{
  moved_to, chevron, legend_disabled, label_color, Page, Infos, set_boxes, update, emit, is_graph,
}
use p_loadtesting.Dashboard.Refresh.{create_graph}
use p_loadtesting.Js.Action.{Action, pure, lift, ◌>>◌}
use p_loadtesting.Js.Number.{JsNumber}
use p_loadtesting.Js.Outcome.{returned, threw}

-- `if (id == ...) {...} else if (id == ...) {...}`
abbrev pub choose : {A : Type 0} → String → List (String × A) → Option A
choose id [] = none
choose id ((key, a) ∷ cases) =
    let later = choose id cases in if str_eq id key then some a else later

abbrev pub set_checked : Bool → List Box → List Box
set_checked b [] = []
set_checked b (box ∷ boxes) = record { name = box.name; checked = b } ∷ set_checked b boxes

-- The click on a checkbox itself.
abbrev pub flip : ℕ → List Box → List Box
flip i [] = []
flip zero (box ∷ boxes) = record { name = box.name; checked = not box.checked } ∷ boxes
flip (suc i) (box ∷ boxes) = box ∷ flip i boxes

module _ {Num : Type 0} where
  abbrev pub perform : Option (Action (Page Num) (Unit {0})) → Action (Page Num) (Unit {0})
  perform none = pure tt
  perform (some action) = action

  -- `try { action } catch(e) {}`
  abbrev pub attempt : Action (Page Num) (Unit {0}) → Action (Page Num) (Unit {0})
  attempt action p = (returned tt, (action p).1)

  -- A branch of `collapse`: `flot` is the element of the class flot-chart-content in the panel.
  unfoldable pub open_panel :
      (flot : String)
      → Action (Page Num) (Unit {0})
      → (location : String) → Action (Page Num) (Unit {0})
  unfolding is_graph
  open_panel flot refresh_graph location p =
      ((λ q. if is_graph flot q then (returned tt, q) else refresh_graph q)
          >> emit (moved_to location))
        p

module _ {Num : Type 0} ⦃num : JsNumber Num⦄ (browser : Browser Num) where
  -- No file of the repository declares `refreshCustomGraph`: its call throws an error.
  unfoldable pub panels : List (String × Action (Page Num) (Unit {0}))
  unfolding open_panel refresh_active_threads_over_time refresh_bytes_throughput_over_time
      refresh_codes_per_second refresh_connect_time_over_time refresh_latencies_over_time
      refresh_latencies_vs_request refresh_response_time_distribution
      refresh_response_time_percentiles_over_time refresh_response_time_vs_request
      refresh_synthetic_response_time_distribution refresh_time_vs_threads refresh_total_tps
      refresh_transactions_per_second
  panels =
      (
        "bodyBytesThroughputOverTime",
        open_panel "flotBytesThroughputOverTime" (refresh_bytes_throughput_over_time browser true)
            "#bytesThroughputOverTime",
      )
      ∷ (
        "bodyLatenciesOverTime",
        open_panel "flotLatenciesOverTime" (refresh_latencies_over_time browser true)
            "#latenciesOverTime",
      )
      ∷ ("bodyCustomGraph", open_panel "flotCustomGraph" (lift threw) "#responseCustomGraph")
      ∷ (
        "bodyConnectTimeOverTime",
        open_panel "flotConnectTimeOverTime" (refresh_connect_time_over_time browser true)
            "#connectTimeOverTime",
      )
      ∷ (
        "bodyResponseTimePercentilesOverTime",
        open_panel "flotResponseTimePercentilesOverTime"
            (refresh_response_time_percentiles_over_time browser true)
            "#responseTimePercentilesOverTime",
      )
      ∷ (
        "bodyResponseTimeDistribution",
        open_panel "flotResponseTimeDistribution" (refresh_response_time_distribution browser)
            "#responseTimeDistribution",
      )
      ∷ (
        "bodySyntheticResponseTimeDistribution",
        open_panel "flotSyntheticResponseTimeDistribution"
            (refresh_synthetic_response_time_distribution browser)
            "#syntheticResponseTimeDistribution",
      )
      ∷ (
        "bodyActiveThreadsOverTime",
        open_panel "flotActiveThreadsOverTime" (refresh_active_threads_over_time browser true)
            "#activeThreadsOverTime",
      )
      ∷ (
        "bodyTimeVsThreads",
        open_panel "flotTimesVsThreads" (refresh_time_vs_threads browser) "#timeVsThreads",
      )
      ∷ (
        "bodyCodesPerSecond",
        open_panel "flotCodesPerSecond" (refresh_codes_per_second browser true) "#codesPerSecond",
      )
      ∷ (
        "bodyTransactionsPerSecond",
        open_panel "flotTransactionsPerSecond" (refresh_transactions_per_second browser true)
            "#transactionsPerSecond",
      )
      ∷ ("bodyTotalTPS", open_panel "flotTotalTPS" (refresh_total_tps browser true) "#totalTPS")
      ∷ (
        "bodyResponseTimeVsRequest",
        open_panel "flotResponseTimeVsRequest" (refresh_response_time_vs_request browser)
            "#responseTimeVsRequest",
      )
      ∷ (
        "bodyLatenciesVsRequest",
        open_panel "flotLatenciesVsRequest" (refresh_latencies_vs_request browser)
            "#latencyVsRequest",
      )
      ∷ []

  unfoldable pub collapse : (id : String) → (collapsed : Bool) → Action (Page Num) (Unit {0})
  unfolding panels
  collapse id collapsed =
      emit (chevron id (not collapsed))
      >> (if collapsed then pure tt else perform (choose id panels))

  unfoldable pub legends : List (String × Action (Page Num) (Unit {0}))
  unfolding refresh_active_threads_over_time refresh_bytes_throughput_over_time
      refresh_codes_per_second refresh_connect_time_over_time refresh_hits_per_second
      refresh_latencies_over_time refresh_latencies_vs_request refresh_response_time_distribution
      refresh_response_time_over_time refresh_response_time_percentiles
      refresh_response_time_percentiles_over_time refresh_response_time_vs_request
      refresh_synthetic_response_time_distribution refresh_time_vs_threads refresh_total_tps
      refresh_transactions_per_second
  legends =
      ("choicesBytesThroughputOverTime", refresh_bytes_throughput_over_time browser false)
      ∷ ("choicesResponseTimesOverTime", refresh_response_time_over_time browser false)
      ∷ ("choicesResponseCustomGraph", lift threw)
      ∷ ("choicesLatenciesOverTime", refresh_latencies_over_time browser false)
      ∷ ("choicesConnectTimeOverTime", refresh_connect_time_over_time browser false)
      ∷ (
        "choicesResponseTimePercentilesOverTime",
        refresh_response_time_percentiles_over_time browser false,
      )
      ∷ ("choicesResponseTimePercentiles", refresh_response_time_percentiles browser)
      ∷ ("choicesActiveThreadsOverTime", refresh_active_threads_over_time browser false)
      ∷ ("choicesTimeVsThreads", refresh_time_vs_threads browser)
      ∷ (
        "choicesSyntheticResponseTimeDistribution",
        refresh_synthetic_response_time_distribution browser,
      )
      ∷ ("choicesResponseTimeDistribution", refresh_response_time_distribution browser)
      ∷ ("choicesHitsPerSecond", refresh_hits_per_second browser false)
      ∷ ("choicesCodesPerSecond", refresh_codes_per_second browser false)
      ∷ ("choicesTransactionsPerSecond", refresh_transactions_per_second browser false)
      ∷ ("choicesTotalTPS", refresh_total_tps browser false)
      ∷ ("choicesResponseTimeVsRequest", refresh_response_time_vs_request browser)
      ∷ ("choicesLatencyVsRequest", refresh_latencies_vs_request browser)
      ∷ []

  -- The end of `toggleAll`, for an id that one of the branches names.
  abbrev pub color_labels : String → Bool → Action (Page Num) (Unit {0})
  color_labels id checked = emit (label_color id (if checked then "black" else "#818181"))

  unfoldable pub toggle_all : (id : String) → (checked : Bool) → Action (Page Num) (Unit {0})
  unfolding legends
  toggle_all id checked =
      update (λ p. set_boxes id (set_checked checked (p.boxes id)) p)
      >> emit (legend_disabled id (not checked))
      >> perform (elim (choose id legends) [
        | none ↦ none
        | some refresh_graph ↦ some (refresh_graph >> color_labels id checked)
      ])

  -- A click on the checkbox of a legend, which the browser checks or unchecks before the handler.
  unfoldable pub click_box : Infos Num → ℕ → Action (Page Num) (Unit {0})
  unfolding create_graph
  click_box infos i =
      update (λ p. set_boxes infos.choices (flip i (p.boxes infos.choices)) p)
      >> create_graph browser infos

  unfoldable pub ready : Action (Page Num) (Unit {0})
  unfolding refresh_hits_per_second refresh_response_time_over_time
      refresh_response_time_percentiles
  ready =
      attempt (refresh_hits_per_second browser true)
      >> attempt (refresh_response_time_over_time browser true)
      >> attempt (refresh_response_time_percentiles browser)

  unfoldable pub uncheck_all : (id : String) → Action (Page Num) (Unit {0})
  unfolding toggle_all
  uncheck_all id = toggle_all id false

  unfoldable pub check_all : (id : String) → Action (Page Num) (Unit {0})
  unfolding toggle_all
  check_all id = toggle_all id true
