-- ===== src/Examples/ZoomTests.antt =====
-- Zooming in a graph of the report, on a few gestures.
use p_loadtesting.Prelude.{ℕ, ◌-◌, ◌≡◌, refl, Option, none, some, List, [], ◌∷◌, if◌then◌else◌}
use p_loadtesting.Dashboard.Zoom.{
  Range, Ranges, Gesture, select_graph, unselect_graph, select_overview, unselect_overview,
  unzoomed, clamp, graph_selected, zoom_plot, set_graph_selection, handle_gesture, after_gestures,
}
use p_loadtesting.Js.Naturals.{naturals}

abbrev minus : Option ℕ → Option ℕ → Option ℕ
minus (some m) (some n) = some (m - n)
minus _ _ = none

abbrev square : ℕ → ℕ → Ranges (Option ℕ)
square m n =
    let side : Range (Option ℕ) = record { start = some m; stop = some n } in
    record { xaxis = side; yaxis = side }

-- A selection of less than two on the abscissa is too small.
abbrev sized : Option (Ranges (Option ℕ)) → Ranges (Option ℕ) → Option (Ranges (Option ℕ))
sized view r = if naturals.lt (minus r.xaxis.stop r.xaxis.start) (some 2) then none else some r

-- The second selection on the overview is too small.
abbrev gestures : List (Gesture (Option ℕ))
gestures =
    select_graph (square 2 8)
    ∷ unselect_overview
    ∷ select_overview (square 3 6)
    ∷ select_overview (square 4 4)
    ∷ unselect_graph
    ∷ []

zoomed_to : after_gestures minus (some 1) sized (square 0 9) gestures unzoomed ≡ record {
  view = some (square 3 6);
  graph_selection = none;
  overview_selection = some (square 4 4);
}
unfolding after_gestures handle_gesture set_graph_selection graph_selected clamp zoom_plot
zoomed_to = refl
