-- ===== src/Dashboard/Zoom.antt =====
-- `zoomPlot` and `setGraphZoomable` of engines/jmeter/html-report/content/js/dashboard-commons.js: a
-- graph and its overview. flot is a library beside this code: `report` is the selection that it has
-- on a graph with a view after `setSelection`, `none` where that is smaller than its `minSize`, and
-- then it triggers no event.
use p_loadtesting.Prelude.{◌≡◌, ◌⊎◌, Option, none, some, List, [], ◌∷◌, if◌then◌else◌}
use p_loadtesting.Js.Number.{JsNumber}

-- The ends of a selection on an axis: `from` and `to`, or `min` and `max`.
pub record Range (Num : Type 0) : Type 0 where
  pub start : Num
  pub stop : Num

pub record Ranges (Num : Type 0) : Type 0 where
  pub xaxis : Range Num
  pub yaxis : Range Num

-- The bounds set on the axes of the graph, `none` before the first zoom; what `getSelection` gives of
-- the graph; and the ranges that were last selected on the overview.
pub record Linked (Num : Type 0) : Type 0 where
  pub view : Option (Ranges Num)
  pub graph_selection : Option (Ranges Num)
  pub overview_selection : Option (Ranges Num)

abbrev pub unzoomed : {Num : Type 0} → Linked Num
unzoomed = record { view = none; graph_selection = none; overview_selection = none }

-- The reader selects a part of the graph or of the overview, or clicks on one of them, which selects
-- nothing.
pub data Gesture (Num : Type 0) : Type 0 where
  select_graph : Ranges Num → Gesture Num
  unselect_graph : Gesture Num
  select_overview : Ranges Num → Gesture Num
  unselect_overview : Gesture Num

module _ {Num : Type 0} where
  -- `zoomPlot` of the graph
  unfoldable pub zoom_plot : Ranges Num → Linked Num → Linked Num
  zoom_plot ranges l = record l { view = some ranges }

-- `minus` is subtraction, and `tiny` the literal 0.00001.
module _ {Num : Type 0} ⦃num : JsNumber Num⦄ (minus : Num → Num → Num) (tiny : Num) where
  unfoldable pub clamp : Range Num → Range Num
  clamp r =
      if num.lt (minus r.stop r.start) tiny
      then record { start = r.start; stop = num.add r.start tiny }
      else r

  abbrev pub clamp_both : Ranges Num → Ranges Num
  clamp_both r = record { xaxis = clamp r.xaxis; yaxis = clamp r.yaxis }

  -- The handler of `plotselected` of the graph.
  unfoldable pub graph_selected : Ranges Num → Linked Num → Linked Num
  unfolding clamp zoom_plot
  graph_selected ranges l = record (zoom_plot (clamp_both ranges) l) {
    graph_selection = none;
    overview_selection = some (clamp_both ranges);
  }

  module _ (report : Option (Ranges Num) → Ranges Num → Option (Ranges Num))
      (overview_axes : Ranges Num) where
    -- `setSelection` of the graph: the handler above runs on what flot has selected.
    unfoldable pub set_graph_selection : Ranges Num → Linked Num → Linked Num
    unfolding graph_selected
    set_graph_selection ranges l =
        let selected = record l { graph_selection = report l.view ranges } in
        elim (report l.view ranges) [ none ↦ selected | some r ↦ graph_selected r selected ]

    -- The handlers of `setGraphZoomable`, after what the gesture itself selects. None is bound to the
    -- click on the graph.
    unfoldable pub handle_gesture : Gesture Num → Linked Num → Linked Num
    unfolding graph_selected set_graph_selection zoom_plot
    handle_gesture (select_graph r) l = graph_selected r (record l { graph_selection = some r })
    handle_gesture unselect_graph l = record l { graph_selection = none }
    handle_gesture (select_overview r) l =
        set_graph_selection r (record l { overview_selection = some r })
    handle_gesture unselect_overview l =
        zoom_plot overview_axes (record l { overview_selection = none })

    -- Gestures in their order.
    unfoldable pub after_gestures : List (Gesture Num) → Linked Num → Linked Num
    unfolding handle_gesture
    after_gestures [] l = l
    after_gestures (g ∷ gs) l = after_gestures gs (handle_gesture g l)

    -- The graph shows what is selected on the overview, unless that is too small for the graph.
    abbrev pub IsShown : Option (Ranges Num) → Option (Ranges Num) → Type 0
    IsShown (some r) view = (view ≡ some r) ⊎ (report view r ≡ none)
    IsShown none view = (view ≡ none) ⊎ (view ≡ some overview_axes)

    abbrev pub IsLinked : Linked Num → Type 0
    IsLinked l = (l.graph_selection ≡ none) × IsShown l.overview_selection l.view
