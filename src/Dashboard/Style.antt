-- ===== src/Dashboard/Style.antt =====
-- What the options of several graphs of engines/jmeter/html-report/content/js/graph.js have in
-- common.
use p_loadtesting.Prelude.{ℕ, String, Bool, true, none, List, [], ◌∷◌}
use p_loadtesting.Dashboard.{get_time_format}
use p_loadtesting.Dashboard.Data.{Options}
use p_loadtesting.Js.Number.{JsNumber}
use p_loadtesting.Js.Value.{Value, boolean, number, text, array, object, fields, values}

module _ {Num : Type 0} ⦃num : JsNumber Num⦄ where
  abbrev pub obj : List (String × Value Num) → Value Num
  obj entries = object (fields entries)

  abbrev pub natural : ℕ → Value Num
  natural n = number (num.of_ℕ n)

  -- a literal that is no whole number
  abbrev pub literal : String → Value Num
  literal s = number (num.parse s)

  -- The label of an axis.
  unfoldable pub axis_label : String → List (String × Value Num)
  axis_label label =
      ("axisLabel", text label)
      ∷ ("axisLabelUseCanvas", boolean true)
      ∷ ("axisLabelFontSizePixels", natural 12)
      ∷ ("axisLabelFontFamily", text "Verdana, Arial")
      ∷ ("axisLabelPadding", natural 20)
      ∷ []

  unfoldable pub time_axis : ℕ → (label : String) → List (String × Value Num)
  unfolding axis_label get_time_format
  time_axis granularity label =
      ("mode", text "time") ∷ ("timeformat", text (get_time_format granularity)) ∷ axis_label label

  unfoldable pub legend : ℕ → (container : String) → Value Num
  legend no_columns container = obj (
      ("noColumns", natural no_columns)
      ∷ ("show", boolean true)
      ∷ ("container", text container)
      ∷ [])

  abbrev pub selection_xy : Value Num
  selection_xy = obj (("mode", text "xy") ∷ [])

  abbrev pub hoverable : Value Num
  hoverable = obj (("hoverable", boolean true) ∷ [])

  abbrev pub content_text : String → Value Num
  content_text s = obj (("content", text s) ∷ [])

  -- `series` with `lines.show` as given and points
  unfoldable pub lines_and_points : Bool → Value Num
  lines_and_points lines = obj (
      ("lines", obj (("show", boolean lines) ∷ []))
      ∷ ("points", obj (("show", boolean true) ∷ []))
      ∷ [])

  -- filled lines and points
  abbrev pub filled : List (String × Value Num)
  filled =
      ("lines", obj (("show", boolean true) ∷ ("fill", boolean true) ∷ []))
      ∷ ("points", obj (("show", boolean true) ∷ []))
      ∷ []

  abbrev pub two_colors : Value Num
  two_colors = array (values (text "#9ACD32" ∷ text "#FF6347" ∷ []))

  abbrev pub plain : List (String × Value Num) → Options Num
  plain entries = record { settings = fields entries; content = none }

  -- The options of a graph over time, with legend, selection and a tooltip.
  unfoldable pub over_time :
      (series : Value Num)
      → (x_axis : List (String × Value Num)) → (y_label : String) → (no_columns : ℕ)
      → (legend_container tooltip : String) → List (String × Value Num)
  unfolding axis_label legend
  over_time series x_axis y_label no_columns legend_container tooltip =
      ("series", series)
      ∷ ("xaxis", obj x_axis)
      ∷ ("yaxis", obj (axis_label y_label))
      ∷ ("legend", legend no_columns legend_container)
      ∷ ("selection", selection_xy)
      ∷ ("grid", hoverable)
      ∷ ("tooltip", boolean true)
      ∷ ("tooltipOpts", content_text tooltip)
      ∷ []
