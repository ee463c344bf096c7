-- ===== src/Dashboard/Drawing.antt =====
-- `createGraph` of engines/jmeter/html-report/content/js/graph.js draws its graph wherever the page
-- has room for it.
use p_loadtesting.Prelude.{
  String, ◌≡◌, refl, ◌∙◌, ap, true, ◌||◌, Option, none, some, List, str_eq, eq_iff, Bool-cases, inl,
  inr, arith, eq_refl, sym,
}
use p_loadtesting.Dashboard.Data.{Series, Options, Browser}
use p_loadtesting.Dashboard.Page.{Graph, Page, Infos, listed, is_graph, with_plot}
use p_loadtesting.Dashboard.Refresh.{plot_overview, draw, create_graph}
use p_loadtesting.Dashboard.Safety.{infos_of, HasAxes, get_options-HasAxes}
use p_loadtesting.Dashboard.Axes.{
  prepare_overview_options-Returns, prepare_options-KeepsAxes, with_ticks-KeepsAxes,
}
use p_loadtesting.Js.Number.{JsNumber}
use p_loadtesting.Js.Outcome.{returned}

module _ {Num : Type 0} where
  pub listed-with_plot :
      (id other : String) (p : Page Num)
      → listed id (with_plot other p).plots ≡ (str_eq other id || listed id p.plots)
  listed-with_plot id other p = elim (Bool-cases (listed other p.plots)) [
    | inl h ↦ elim (Bool-cases (str_eq other id)) [
      | inl e ↦ rw h (rw e (ap (λ x. listed x p.plots) (sym ((eq_iff other id).0 e)) ∙ h))
      | inr e ↦ rw h (rw e refl)
    ]
    | inr h ↦ rw h refl
  ]

module _ {Num : Type 0} ⦃num : JsNumber Num⦄ (browser : Browser Num) where
  -- Whether there is room for a plot.
  abbrev pub Fits : Option String → Type 0
  Fits none = Unit
  Fits (some id) = browser.fits id ≡ true

  plot_overview-draws :
      (overview : Option String) (ds : List (Series Num)) (o : Options Num) (id : String)
      (p : Page Num)
      → Fits overview
      → listed id p.plots ≡ true
      → ((plot_overview browser overview ds o p).0 ≡ returned tt)
        × (listed id (plot_overview browser overview ds o p).1.plots ≡ true)
  plot_overview-draws none ds o id p fits h = (refl, h)
  plot_overview-draws (some other) ds o id p fits h =
      let (settings, e) = prepare_overview_options-Returns browser o.settings in
      rw e (rw fits (refl, listed-with_plot id other p ∙ ground (arith, h)))

  -- Where the axes of its options are objects and its elements have room, a graph is drawn.
  draws :
      (infos : Infos Num) (p : Page Num)
      → HasAxes (infos.get_options (p.graphs infos.graph)).settings
      → Fits (some infos.flot)
      → Fits infos.overview
      → ((create_graph browser infos p).0 ≡ returned tt)
        × (listed infos.flot (create_graph browser infos p).1.plots ≡ true)
  unfolding create_graph draw
  draws infos p axes fits fits_overview =
      let d = p.graphs infos.graph in
      let (a, (ea, ha)) = prepare_options-KeepsAxes d (infos.get_options d).settings axes in
      let (b, (eb, hb)) = with_ticks-KeepsAxes infos.sets_ticks d a ha in
      rw ea (
        rw eb (
          rw fits (
            plot_overview-draws infos.overview _ _ infos.flot _ fits_overview
              (listed-with_plot infos.flot infos.flot p ∙ ground (arith, eq_refl infos.flot)))))

  -- The page has room for a graph and its overview.
  abbrev pub HasRoom : Graph → Type 0
  HasRoom g = Fits (some (infos_of {Num = Num} g).flot) × Fits (infos_of {Num = Num} g).overview

  abbrev pub IsPlotted : Graph → Page Num → Type 0
  IsPlotted g p = is_graph (infos_of {Num = Num} g).flot p ≡ true

  -- On every page, `createGraph` of a graph returns without an error and leaves a plot in the
  -- graph's element, where the element and that of the overview have room for a plot.
  pub create_graph-draws :
      (g : Graph) (p : Page Num)
      → HasRoom g
      → ((create_graph browser (infos_of g) p).0 ≡ returned tt)
        × IsPlotted g (create_graph browser (infos_of g) p).1
  unfolding is_graph
  create_graph-draws g p room =
      draws (infos_of g) p (get_options-HasAxes g (p.graphs (infos_of g).graph)) room.0 room.1
