-- ===== src/Dashboard/Commons.antt =====
-- engines/jmeter/html-report/content/js/dashboard-commons.js: the settings, the comparisons, and
-- the preparation of a graph's options.
use p_loadtesting.Prelude.{
  String, Bool, true, false, not, Option, none, some, List, [], ◌∷◌, if◌then◌else◌,
}
use p_loadtesting.Dashboard.Data.{Coord, GraphData, Settings, Browser}
use p_loadtesting.Dashboard.Texts.{split_dots, text_gt}
use p_loadtesting.Js.Number.{JsNumber}
use p_loadtesting.Js.Outcome.{Outcome, returned, ◌>>=◌}
use p_loadtesting.Js.Value.{
  Value, undefined, null, boolean, number, text, object, Fields, fields, get_field, set_field,
  property, with_property, to_boolean, to_number, to_text, strict_equal,
}

-- The three variables: all series are shown, and no filter is set.
abbrev pub settings : Settings
settings = record {
  show_controllers_only = false;
  series_filter = "";
  filters_only_sample_series = true;
}

module _ {Num : Type 0} ⦃num : JsNumber Num⦄ where
  -- `prop && prop[subprop]` for each piece of the key
  unfoldable pub get_path : List String → Value Num → Outcome (Value Num)
  unfolding to_boolean property
  get_path [] prop = returned prop
  get_path (subprop ∷ key) prop =
      (if to_boolean prop then property subprop prop else returned prop) >>= get_path key

  unfoldable pub get_property : String → Value Num → Outcome (Value Num)
  unfolding split_dots get_path
  get_property key obj = get_path (split_dots "" key) obj

  -- compareByXCoordinate: whether `coord2[0] - coord1[0]` is negative
  unfoldable pub before_by_x : Coord Num → Coord Num → Bool
  before_by_x coord1 coord2 = num.lt coord2.x coord1.x

  -- sortAlphaCaseless: whether it answers -1
  unfoldable pub before_caseless : Browser Num → String → String → Bool
  unfolding text_gt
  before_caseless browser s t = not (text_gt (browser.lower_case s) (browser.lower_case t))

  -- `isNaN(value)`
  unfoldable pub is_nan : Value Num → Bool
  unfolding to_number
  is_nan v = not (num.eq (to_number v) (to_number v))

  -- `options.axis.key = value`
  unfoldable pub set_in : (axis key : String) → Value Num → Fields Num → Outcome (Fields Num)
  unfolding with_property
  set_in axis key v options =
      with_property key v (get_field axis options) >>= λ w. returned (set_field axis w options)

  -- `options.axis.mode === "time" ? 28800000 : 0`
  unfoldable pub axis_offset : String → Fields Num → Outcome Num
  unfolding property strict_equal
  axis_offset axis options = property "mode" (get_field axis options) >>= λ mode.
      returned (num.of_ℕ (if strict_equal mode (text "time") then 28800000 else 0))

  -- `if(!isNaN(extraOptions.name)) options.axis.key = parseFloat(extraOptions.name) + offset`
  unfoldable pub set_bound :
      Fields Num → (name axis key : String) → Num → Fields Num → Outcome (Fields Num)
  unfolding is_nan set_in to_text
  set_bound extra name axis key offset options =
      let v = get_field name extra in
      if is_nan v
      then returned options
      else set_in axis key (number (num.add (num.parse_float (to_text v)) offset)) options

  -- `if(extraOptions !== undefined) {...}`
  unfoldable pub set_bounds : Option (Fields Num) → Fields Num → Outcome (Fields Num)
  unfolding axis_offset set_bound
  set_bounds none options = returned options
  set_bounds (some extra) options = axis_offset "xaxis" options >>= λ x_offset.
      axis_offset "yaxis" options >>= λ y_offset.
      set_bound extra "minX" "xaxis" "min" x_offset options >>= λ o1.
      set_bound extra "maxX" "xaxis" "max" x_offset o1 >>= λ o2.
      set_bound extra "minY" "yaxis" "min" y_offset o2 >>= λ o3.
      set_bound extra "maxY" "yaxis" "max" y_offset o3

  unfoldable pub prepare_options : Fields Num → GraphData Num → Outcome (Fields Num)
  unfolding set_bounds
  prepare_options options data_of =
      set_bounds data_of.extra_options (set_field "canvas" (boolean true) options)

  -- `value == false`, for a value that is no array and no object
  unfoldable pub equals_false : Value Num → Bool
  unfolding to_number
  equals_false undefined = false
  equals_false null = false
  equals_false v = num.eq (to_number v) (num.of_ℕ 0)

  -- `series.points` of an overview: points are shown only where the graph does not show lines.
  abbrev pub overview_points : (lines_show : Value Num) → List (String × Value Num)
  overview_points lines_show =
      ("show", boolean (equals_false lines_show)) ∷ ("radius", number (num.of_ℕ 1)) ∷ []

  abbrev pub overview_series : (lines_show : Value Num) → List (String × Value Num)
  overview_series lines_show =
      ("shadowSize", number (num.of_ℕ 0))
      ∷ ("lines", object (fields (("lineWidth", number (num.of_ℕ 1)) ∷ [])))
      ∷ ("points", object (fields (overview_points lines_show)))
      ∷ []

  abbrev pub overview_axis : List (String × Value Num)
  overview_axis = ("ticks", number (num.of_ℕ 2)) ∷ ("axisLabel", null) ∷ []

  abbrev pub overview_entries : (lines_show : Value Num) → List (String × Value Num)
  overview_entries lines_show =
      ("series", object (fields (overview_series lines_show)))
      ∷ ("xaxis", object (fields overview_axis))
      ∷ ("yaxis", object (fields overview_axis))
      ∷ ("legend", object (fields (("show", boolean false) ∷ ("container", null) ∷ [])))
      ∷ ("grid", object (fields (("hoverable", boolean false) ∷ [])))
      ∷ ("tooltip", boolean false)
      ∷ []

  unfoldable pub overview_options : Fields Num → Outcome (Fields Num)
  unfolding get_property equals_false
  overview_options graph_options =
      get_property "series.lines.show" (object graph_options) >>= λ lines_show.
      returned (fields (overview_entries lines_show))

  unfoldable pub prepare_overview_options : Browser Num → Fields Num → Outcome (Fields Num)
  unfolding overview_options
  prepare_overview_options browser graph_options =
      overview_options graph_options >>= λ o. returned (browser.extend graph_options o)
