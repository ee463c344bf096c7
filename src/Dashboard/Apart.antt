-- ===== src/Dashboard/Apart.antt =====
-- What is done to one graph of engines/jmeter/html-report/content/js/graph.js leaves the data and the
-- plot of another alone.
use p_loadtesting.Prelude.{
  String, ◌≡◌, ◌≢◌, refl, sym, ◌∙◌, Bool, Option, none, some, ◌==◌, ==_iff, Bool-cases, inl, inr,
}
use p_loadtesting.Dashboard.Data.{GraphData, Browser}
use p_loadtesting.Dashboard.Drawing.{listed-with_plot}
use p_loadtesting.Dashboard.Frames.{Keeps, Keeps-refresh, IsApart, OnOption}
use p_loadtesting.Dashboard.Page.{Graph, index, Page, is_graph, set_graph}
use p_loadtesting.Dashboard.Refresh.{refresh}
use p_loadtesting.Dashboard.Safety.{infos_of}
use p_loadtesting.Js.Number.{JsNumber}
use p_loadtesting.Dashboard.Elsewhere.{
  drawn_in-overview, graph-infos_of, IsElsewhere, flot-IsElsewhere, overview-IsElsewhere,
}

module _ {Num : Type 0} ⦃num : JsNumber Num⦄ where
  -- The data of a graph, and whether it has a plot.
  abbrev pub data_of : Graph → Page Num → GraphData Num
  data_of g p = p.graphs g

  abbrev pub is_plotted : Graph → Page Num → Bool
  is_plotted g p = is_graph (infos_of {Num = Num} g).flot p

  pub data_of-IsApart : (g : Graph) → IsApart (data_of g) (λ id. Unit {0})
  data_of-IsApart g = record {
    events = λ e p. refl;
    boxes = λ id bs p. refl;
    plots = λ id h p. refl;
  }

  pub is_plotted-IsApart : (g : Graph) → IsApart (is_plotted g) (IsElsewhere Num g)
  unfolding is_graph
  is_plotted-IsApart g = record {
    events = λ e p. refl;
    boxes = λ id bs p. refl;
    plots = λ id h p. listed-with_plot (infos_of {Num = Num} g).flot id p ∙ rw h refl;
  }

abbrev pub everywhere : (id : Option String) → OnOption (λ _. Unit {0}) id
everywhere none = tt
everywhere (some id) = tt

module _ {Num : Type 0} ⦃num : JsNumber Num⦄ (browser : Browser Num) (g h : Graph) where
  data_of-set_graph :
      index g ≢ index h
      → (d : GraphData Num) (p : Page Num) → data_of g (set_graph h d p) ≡ data_of g p
  data_of-set_graph ne d p = elim (Bool-cases (index g == index h)) [
    | inl e ↦ absurd (ne ((==_iff _ _).0 e))
    | inr e ↦ rw e refl
  ]

  -- A refresh of another graph.
  pub refresh-data_of :
      (no_match ignore fix : Bool) (body : Option String) (legend : String)
      → index g ≢ index h
      → Keeps (data_of g) (refresh browser (infos_of h) no_match ignore body fix legend)
  refresh-data_of no_match ignore fix body legend ne =
      Keeps-refresh browser (data_of g) (λ _. Unit {0}) (data_of-IsApart g) (infos_of h) no_match
        ignore fix body legend (λ d p. rw (graph-infos_of Num h) (data_of-set_graph ne d p)) tt
        (everywhere (infos_of {Num = Num} h).overview)

  pub refresh-is_plotted :
      (no_match ignore fix : Bool) (body : Option String) (legend : String)
      → index g ≢ index h
      → Keeps (is_plotted g) (refresh browser (infos_of h) no_match ignore body fix legend)
  unfolding is_graph
  refresh-is_plotted no_match ignore fix body legend ne =
      Keeps-refresh browser (is_plotted g) (IsElsewhere Num g) (is_plotted-IsApart g) (infos_of h)
        no_match ignore fix body legend (λ d p. refl) (flot-IsElsewhere Num g h (λ e. ne (sym e)))
        (overview-IsElsewhere Num g (infos_of {Num = Num} h).overview (drawn_in-overview Num h))
