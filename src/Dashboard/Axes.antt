-- ===== src/Dashboard/Axes.antt =====
-- The preparation of options that have two axes, by
-- engines/jmeter/html-report/content/js/dashboard-commons.js, throws no error and keeps the axes.
use p_loadtesting.Prelude.{
  String, ◌≡◌, refl, ◌∙◌, Bool, true, false, Option, none, some, List, [], ◌∷◌, Bool-cases, inl,
  inr, ◌⊎◌,
}
use p_loadtesting.Dashboard.Commons.{
  get_path, get_property, set_in, set_bound, set_bounds, axis_offset, is_nan, prepare_options,
  overview_options, prepare_overview_options,
}
use p_loadtesting.Dashboard.Texts.{split_dots}
use p_loadtesting.Dashboard.Data.{GraphData, Browser}
use p_loadtesting.Dashboard.Refresh.{with_ticks}
use p_loadtesting.Js.Fields.{get_field-set_field}
use p_loadtesting.Js.Number.{JsNumber}
use p_loadtesting.Js.Outcome.{Outcome, Returns, Returns-bind, returned, ◌>>=◌}
use p_loadtesting.Js.Value.{
  Value, Fields, undefined, null, boolean, number, text, array, object, get_field, set_field,
  property, with_property, to_boolean,
}
use p_loadtesting.Dashboard.Safety.{HasAxes}

module _ {Num : Type 0} ⦃num : JsNumber Num⦄ where
  -- `prop && prop[subprop]` never reads a property of undefined or null.
  property-Returns : (key : String) (v : Value Num) → to_boolean v ≡ true → Returns (property key v)
  unfolding property to_boolean
  property-Returns key undefined h = cc
  property-Returns key null h = cc
  property-Returns key (object fs) h = (_, refl)
  property-Returns key (boolean b) h = (_, refl)
  property-Returns key (number x) h = (_, refl)
  property-Returns key (text s) h = (_, refl)
  property-Returns key (array vs) h = (_, refl)

  get_path-Returns : (key : List String) (v : Value Num) → Returns (get_path key v)
  unfolding get_path
  get_path-Returns [] v = (v, refl)
  get_path-Returns (subprop ∷ key) v = elim (Bool-cases (to_boolean v)) [
    | inl h ↦ rw h (
        Returns-bind (property subprop v) (get_path key) (property-Returns subprop v h)
          (get_path-Returns key))
    | inr h ↦ rw h (get_path-Returns key v)
  ]

  overview_options-Returns : (options : Fields Num) → Returns (overview_options options)
  unfolding overview_options get_property
  overview_options-Returns options =
      Returns-bind (get_property "series.lines.show" (object options)) _
        (get_path-Returns (split_dots "" "series.lines.show") (object options)) (λ w. (_, refl))

  pub prepare_overview_options-Returns :
      (browser : Browser Num) (options : Fields Num)
      → Returns (prepare_overview_options browser options)
  unfolding prepare_overview_options
  prepare_overview_options-Returns browser options =
      Returns-bind (overview_options options) _ (overview_options-Returns options) (λ w. (_, refl))

  -- A function on options that throws no error and keeps the axes.
  abbrev pub KeepsAxes : (Fields Num → Outcome (Fields Num)) → Type 0
  KeepsAxes f = (o : Fields Num) → HasAxes o → (a : Fields Num) × ((f o ≡ returned a) × HasAxes a)

  KeepsAxes-set_in :
      (axis : String)
      → (axis ≡ "xaxis") ⊎ (axis ≡ "yaxis")
      → (key : String) (v : Value Num) → KeepsAxes (set_in axis key v)
  unfolding set_in with_property
  KeepsAxes-set_in axis (inl e) key v o h = rw e (
    set_field "xaxis" (object (set_field key v h.0.0)) o,
    (
      rw h.0.1 refl,
      (
        (_, get_field-set_field "xaxis" "xaxis" (object (set_field key v h.0.0)) o),
        (_, get_field-set_field "yaxis" "xaxis" (object (set_field key v h.0.0)) o ∙ h.1.1),
      ),
    ),
  )
  KeepsAxes-set_in axis (inr e) key v o h = rw e (
    set_field "yaxis" (object (set_field key v h.1.0)) o,
    (
      rw h.1.1 refl,
      (
        (_, get_field-set_field "xaxis" "yaxis" (object (set_field key v h.1.0)) o ∙ h.0.1),
        (_, get_field-set_field "yaxis" "yaxis" (object (set_field key v h.1.0)) o),
      ),
    ),
  )

  KeepsAxes-set_bound :
      (extra : Fields Num) (name axis key : String)
      → (axis ≡ "xaxis") ⊎ (axis ≡ "yaxis")
      → (offset : Num) → KeepsAxes (set_bound extra name axis key offset)
  unfolding set_bound
  KeepsAxes-set_bound extra name axis key w offset o h =
      elim (Bool-cases (is_nan (get_field name extra))) [
        | inl e ↦ rw e (o, (refl, h))
        | inr e ↦ rw e (KeepsAxes-set_in axis w key _ o h)
      ]

  KeepsAxes-bind :
      (f g : Fields Num → Outcome (Fields Num))
      → KeepsAxes f
      → KeepsAxes g
      → KeepsAxes (λ o. f o >>= g)
  KeepsAxes-bind f g hf hg o h = let (a, (e, ha)) = hf o h in rw e (hg a ha)

  axis_offset-Returns :
      (axis : String) (o x : Fields Num)
      → get_field axis o ≡ object x
      → Returns (axis_offset axis o)
  unfolding axis_offset property
  axis_offset-Returns axis o x e = rw e (_, refl)

  bounds-KeepsAxes :
      (extra : Fields Num) (x_offset y_offset : Num)
      → KeepsAxes (λ o. set_bound extra "minX" "xaxis" "min" x_offset o >>= λ o1.
          set_bound extra "maxX" "xaxis" "max" x_offset o1 >>= λ o2.
          set_bound extra "minY" "yaxis" "min" y_offset o2 >>= λ o3.
          set_bound extra "maxY" "yaxis" "max" y_offset o3)
  bounds-KeepsAxes extra x_offset y_offset =
      KeepsAxes-bind _ _ (KeepsAxes-set_bound extra "minX" "xaxis" "min" (inl refl) x_offset) (
        KeepsAxes-bind _ _ (KeepsAxes-set_bound extra "maxX" "xaxis" "max" (inl refl) x_offset) (
          KeepsAxes-bind _ _ (KeepsAxes-set_bound extra "minY" "yaxis" "min" (inr refl) y_offset)
            (KeepsAxes-set_bound extra "maxY" "yaxis" "max" (inr refl) y_offset)))

  canvas-HasAxes : (o : Fields Num) → HasAxes o → HasAxes (set_field "canvas" (boolean true) o)
  canvas-HasAxes o h = (
    (h.0.0, get_field-set_field "xaxis" "canvas" (boolean true) o ∙ h.0.1),
    (h.1.0, get_field-set_field "yaxis" "canvas" (boolean true) o ∙ h.1.1),
  )

  set_bounds-KeepsAxes : (extra : Option (Fields Num)) → KeepsAxes (set_bounds extra)
  unfolding set_bounds
  set_bounds-KeepsAxes none o h = (o, (refl, h))
  set_bounds-KeepsAxes (some extra) o h =
      let (x_offset, ex) = axis_offset-Returns "xaxis" o h.0.0 h.0.1 in
      let (y_offset, ey) = axis_offset-Returns "yaxis" o h.1.0 h.1.1 in
      rw ex (rw ey (bounds-KeepsAxes extra x_offset y_offset o h))

  pub prepare_options-KeepsAxes : (d : GraphData Num) → KeepsAxes (λ o. prepare_options o d)
  unfolding prepare_options
  prepare_options-KeepsAxes d o h =
      set_bounds-KeepsAxes d.extra_options (set_field "canvas" (boolean true) o)
        (canvas-HasAxes o h)

  pub with_ticks-KeepsAxes : (sets : Bool) (d : GraphData Num) → KeepsAxes (with_ticks sets d)
  with_ticks-KeepsAxes false d o h = (o, (refl, h))
  with_ticks-KeepsAxes true d o h = KeepsAxes-set_in "xaxis" (inl refl) "ticks" d.result.ticks o h
