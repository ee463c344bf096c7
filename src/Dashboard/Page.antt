-- ===== src/Dashboard/Page.antt =====
-- The page that engines/jmeter/html-report/content/js/graph.js works on, and what its graphs have
-- in common: `createGraph`, the refreshing of a graph and `setEmptyGraph`.
use Prim.Native.String.{◌++◌}
use p_loadtesting.Prelude.{
  ℕ, String, Bool, false, ◌||◌, Option, List, [], ◌∷◌, ◌==◌, str_eq, if◌then◌else◌,
}
use p_loadtesting.Dashboard.Commons.{settings}
use p_loadtesting.Dashboard.Data.{Series, GraphData, Box, Options}
use p_loadtesting.Js.Action.{Action}
use p_loadtesting.Js.Outcome.{returned}

-- The graphs, by the variables that hold their data.
pub data Graph : Type 0 where
  response_time_percentiles : Graph
  response_time_distribution : Graph
  synthetic_response_time_distribution : Graph
  active_threads_over_time : Graph
  time_vs_threads : Graph
  bytes_throughput_over_time : Graph
  response_times_over_time : Graph
  latencies_over_time : Graph
  connect_time_over_time : Graph
  response_time_percentiles_over_time : Graph
  response_time_vs_request : Graph
  latencies_vs_request : Graph
  hits_per_second : Graph
  codes_per_second : Graph
  transactions_per_second : Graph
  total_tps : Graph

-- The place of a graph's variable in the source.
abbrev pub index : Graph → ℕ
index response_time_percentiles = 0
index response_time_distribution = 1
index synthetic_response_time_distribution = 2
index active_threads_over_time = 3
index time_vs_threads = 4
index bytes_throughput_over_time = 5
index response_times_over_time = 6
index latencies_over_time = 7
index connect_time_over_time = 8
index response_time_percentiles_over_time = 9
index response_time_vs_request = 10
index latencies_vs_request = 11
index hits_per_second = 12
index codes_per_second = 13
index transactions_per_second = 14
index total_tps = 15

-- What the reader of the page can see of the functions' calls.
pub data Event (Num : Type 0) : Type 0 where
  message : (element text : String) → Event Num
  plotted :
      (placeholder : String) → (dataset : List (Series Num)) → (options : Options Num) → Event Num
  zoomable : (graph overview : String) → Event Num
  -- the colored boxes of a legend, copied in front of the labels of a container
  colored : (legend container : String) → Event Num
  moved_to : (location : String) → Event Num
  -- the chevron of a panel's heading, up or down
  chevron : (element : String) → (up : Bool) → Event Num
  legend_disabled : (container : String) → (disabled : Bool) → Event Num
  label_color : (container color : String) → Event Num

-- `plots` are the elements that have a plot, `boxes` the checkboxes within an element, and the
-- latest event comes first.
pub record Page (Num : Type 0) : Type 0 where
  pub graphs : Graph → GraphData Num
  pub plots : List String
  pub boxes : String → List Box
  pub events : List (Event Num)

-- What differs between the objects `...Infos`: the data apart, the elements and the options.
pub record Infos (Num : Type 0) : Type 0 where
  pub graph : Graph
  pub get_options : GraphData Num → Options Num
  pub choices : String
  pub flot : String
  -- the element of the overview, for a graph that has one
  pub overview : Option String
  -- whether `createGraph` sets `options.xaxis.ticks`
  pub sets_ticks : Bool

abbrev pub listed : String → List String → Bool
listed id [] = false
listed id (x ∷ xs) = str_eq x id || listed id xs

module _ {Num : Type 0} where
  abbrev pub set_graph : Graph → GraphData Num → Page Num → Page Num
  set_graph g d p = record {
    graphs = λ h. if index h == index g then d else p.graphs h;
    plots = p.plots;
    boxes = p.boxes;
    events = p.events;
  }

  abbrev pub set_boxes : String → List Box → Page Num → Page Num
  set_boxes id bs p = record {
    graphs = p.graphs;
    plots = p.plots;
    boxes = λ other. if str_eq other id then bs else p.boxes other;
    events = p.events;
  }

  abbrev pub with_event : Event Num → Page Num → Page Num
  with_event e p = record {
    graphs = p.graphs;
    plots = p.plots;
    boxes = p.boxes;
    events = e ∷ p.events;
  }

  abbrev pub with_plot : String → Page Num → Page Num
  with_plot id p = record {
    graphs = p.graphs;
    plots = if listed id p.plots then p.plots else id ∷ p.plots;
    boxes = p.boxes;
    events = p.events;
  }

  abbrev pub update : (Page Num → Page Num) → Action (Page Num) (Unit {0})
  update f p = (returned tt, f p)

  abbrev pub emit : Event Num → Action (Page Num) (Unit {0})
  emit e = update (with_event e)

  -- isGraph, of an element by its id
  unfoldable pub is_graph : String → Page Num → Bool
  is_graph id p = listed id p.plots

  -- The message is set once the page is ready.
  unfoldable pub set_empty_graph : String → Action (Page Num) (Unit {0})
  set_empty_graph element_id =
      emit (message element_id ("No graph series with filter=" ++ settings.series_filter))
