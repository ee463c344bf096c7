-- ===== src/Dashboard/Overview.antt =====
-- The options that `prepareOverviewOptions` of
-- engines/jmeter/html-report/content/js/dashboard-commons.js gives the overview of a graph.
use p_loadtesting.Prelude.{
  ◌≡◌, refl, ap, String, false, List, [], ◌∷◌, str_eq, Bool-cases, inl, inr,
}
use p_loadtesting.Dashboard.Commons.{
  get_property, equals_false, overview_points, overview_series, overview_axis, overview_entries,
  overview_options, prepare_overview_options,
}
use p_loadtesting.Dashboard.Data.{Browser}
use p_loadtesting.Dashboard.Page.{listed}
use p_loadtesting.Js.Number.{JsNumber}
use p_loadtesting.Js.Outcome.{returned}
use p_loadtesting.Js.Value.{
  Value, undefined, null, boolean, number, object, Fields, fields, get_field,
}

module _ {Num : Type 0} where
  abbrev pub keys : List (String × Value Num) → List String
  keys [] = []
  keys ((key, v) ∷ entries) = key ∷ keys entries

  absent :
      (key : String) (entries : List (String × Value Num))
      → listed key (keys entries) ≡ false
      → get_field key (fields entries) ≡ undefined
  absent key [] h = refl
  absent key ((k, v) ∷ entries) h = elim (Bool-cases (str_eq k key)) [
    | inl e ↦ cc (rw e at h)
    | inr e ↦ rw e (absent key entries (rw e at h))
  ]

module _ {Num : Type 0} ⦃num : JsNumber Num⦄ where
  -- The options of an axis with two ticks, without a label, and with the value of another axis at a
  -- key.
  abbrev pub IsOverviewAxis : Fields Num → String → Value Num → Type 0
  IsOverviewAxis axis key v =
      (overview : Fields Num) × ((v ≡ object overview)
        × (((get_field "ticks" overview ≡ number (num.of_ℕ 2))
              × (get_field "axisLabel" overview ≡ null))
            × (get_field key overview ≡ get_field key axis)))

module _ {Num : Type 0} ⦃num : JsNumber Num⦄ (browser : Browser Num) where
  extend-IsOverviewAxis :
      (a b axis : Fields Num) (name key : String)
      → get_field name a ≡ object axis
      → get_field name b ≡ object (fields overview_axis)
      → listed key ("ticks" ∷ "axisLabel" ∷ []) ≡ false
      → IsOverviewAxis axis key (get_field name (browser.extend a b))
  extend-IsOverviewAxis a b axis name key e d h = (
    browser.extend axis (fields overview_axis),
    (
      browser.extend-merged a b axis (fields overview_axis) name e d,
      (
        (
          browser.extend-taken axis (fields overview_axis) "ticks" (number (num.of_ℕ 2)) tt refl,
          browser.extend-taken axis (fields overview_axis) "axisLabel" null tt refl,
        ),
        browser.extend-kept axis (fields overview_axis) key (absent key overview_axis h),
      ),
    ),
  )

  extend-points :
      (series points : Fields Num) (v : Value Num)
      → get_field "points" series ≡ object points
      → get_property "points.show" (object (browser.extend series (fields (overview_series v))))
        ≡ returned (boolean (equals_false v))
  unfolding get_property
  extend-points series points v e =
      rw
        (browser.extend-merged series (fields (overview_series v)) points
          (fields (overview_points v)) "points" e refl)
        (ap returned (
          browser.extend-taken points (fields (overview_points v)) "show" (boolean (equals_false v))
            tt refl))

  extend-shown :
      (options series points : Fields Num) (v : Value Num)
      → get_field "series" options ≡ object series
      → get_field "points" series ≡ object points
      → get_property "series.points.show"
          (object (browser.extend options (fields (overview_entries v))))
        ≡ returned (boolean (equals_false v))
  unfolding get_property
  extend-shown options series points v es ep =
      rw
        (browser.extend-merged options (fields (overview_entries v)) series
          (fields (overview_series v)) "series" es refl)
        (extend-points series points v ep)

  -- For options of a graph with axes and with points in their `series`, `prepareOverviewOptions`
  -- returns options whose axes have two ticks, no label, and what the axes of the graph have at every
  -- other key; that show points exactly if `series.lines.show` of the graph is false, as `==`
  -- decides; that have no tooltip; and that have what those of the graph have at every key but
  -- series, xaxis, yaxis, legend, grid and tooltip.
  pub prepare_overview_options-lem :
      (options xaxis yaxis series points : Fields Num) (v : Value Num) (key axis_key : String)
      → get_field "xaxis" options ≡ object xaxis
      → get_field "yaxis" options ≡ object yaxis
      → get_field "series" options ≡ object series
      → get_field "points" series ≡ object points
      → get_property "series.lines.show" (object options) ≡ returned v
      → listed key ("series" ∷ "xaxis" ∷ "yaxis" ∷ "legend" ∷ "grid" ∷ "tooltip" ∷ []) ≡ false
      → listed axis_key ("ticks" ∷ "axisLabel" ∷ []) ≡ false
      → (o : Fields Num) × ((prepare_overview_options browser options ≡ returned o)
          × ((IsOverviewAxis xaxis axis_key (get_field "xaxis" o)
                × IsOverviewAxis yaxis axis_key (get_field "yaxis" o))
              × ((get_property "series.points.show" (object o)
                    ≡ returned (boolean (equals_false v)))
                  × ((get_field "tooltip" o ≡ boolean false)
                      × (get_field key o ≡ get_field key options)))))
  unfolding prepare_overview_options overview_options
  prepare_overview_options-lem options xaxis yaxis series points v key axis_key ex ey es ep ev hk
        ha =
      let b = fields (overview_entries v) in
      (
        browser.extend options b,
        (
          rw ev refl,
          (
            (
              extend-IsOverviewAxis options b xaxis "xaxis" axis_key ex refl ha,
              extend-IsOverviewAxis options b yaxis "yaxis" axis_key ey refl ha,
            ),
            (
              extend-shown options series points v es ep,
              (
                browser.extend-taken options b "tooltip" (boolean false) tt refl,
                browser.extend-kept options b key (absent key (overview_entries v) hk),
              ),
            ),
          ),
        ),
      )
