-- ===== src/Examples/OverviewTests.antt =====
-- The options of an overview at a concrete graph.
use p_loadtesting.Prelude.{ℕ, ◌≡◌, refl, true, false, Option}
use p_loadtesting.Dashboard.Commons.{get_property, equals_false, prepare_overview_options}
use p_loadtesting.Dashboard.Overview.{IsOverviewAxis, prepare_overview_options-lem}
use p_loadtesting.Examples.Report.{browser}
use p_loadtesting.Js.Naturals.{naturals}
use p_loadtesting.Js.Outcome.{returned}
use p_loadtesting.Js.Value.{boolean, text, object, Fields, end, field, get_field}

abbrev points : Fields (Option ℕ)
points = field "show" (boolean true) end

-- Points without lines.
abbrev series : Fields (Option ℕ)
series =
    field "lines" (object (field "show" (boolean false) end)) (field "points" (object points) end)

abbrev axis : Fields (Option ℕ)
axis = field "mode" (text "time") (field "axisLabel" (text "Elapsed Time") end)

abbrev options : Fields (Option ℕ)
options =
    field "series" (object series) (
      field "xaxis" (object axis) (field "yaxis" (object axis) (field "canvas" (boolean true) end)))

lines_show : get_property "series.lines.show" (object options) ≡ returned (boolean false)
unfolding get_property
lines_show = refl

prepare_overview_options-lem_example :
    (o : Fields (Option ℕ)) × ((prepare_overview_options browser options ≡ returned o)
      × ((IsOverviewAxis axis "mode" (get_field "xaxis" o)
            × IsOverviewAxis axis "mode" (get_field "yaxis" o))
          × ((get_property "series.points.show" (object o)
                ≡ returned (boolean (equals_false {Num = Option ℕ} (boolean false))))
              × ((get_field "tooltip" o ≡ boolean false)
                  × (get_field "canvas" o ≡ get_field "canvas" options)))))
prepare_overview_options-lem_example =
    prepare_overview_options-lem browser options axis axis series points (boolean false) "canvas"
      "mode" refl refl refl refl lines_show refl refl

points_shown : equals_false {Num = Option ℕ} (boolean false) ≡ true
unfolding equals_false
points_shown = refl
