-- ===== src/Dashboard/Frames.antt =====
-- What the functions of engines/jmeter/html-report/content/js/graph.js leave as it was: a view of
-- the page that events and boxes do not change, and the plots of some elements neither.
use p_loadtesting.Prelude.{
  String, ◌≡◌, refl, ◌∙◌, Bool, true, false, Option, none, some, List, Bool-cases, inl, inr,
}
use p_loadtesting.Dashboard.Data.{Series, GraphData, Options, Browser, Box}
use p_loadtesting.Dashboard.Commons.{prepare_options}
use p_loadtesting.Dashboard.Page.{
  Event, zoomable, colored, Page, Infos, with_plot, with_event, set_boxes, set_graph, update, emit,
  is_graph, set_empty_graph,
}
use p_loadtesting.Dashboard.Refresh.{
  draw, finish, first_graph, plot, plot_overview, create_graph, create_legend, set_graph_zoomable,
  show_graph, prepare_graph, fix_graph, refresh, with_ticks,
}
use p_loadtesting.Dashboard.Series.{prepare_data}
use p_loadtesting.Js.Action.{Action, pure, lift, continue, ◌>>=◌, ◌>>◌}
use p_loadtesting.Js.Number.{JsNumber}
use p_loadtesting.Js.Outcome.{Outcome, returned, threw}

pub record Keeps {Num B A : Type 0} (view : Page Num → B) (m : Action (Page Num) A) : Type 0 where
  pub at : (p : Page Num) → view (m p).1 ≡ view p

module _ {Num B A C : Type 0} (view : Page Num → B) where
  pub Keeps-continue :
      (r : Outcome A × Page Num) (f : A → Action (Page Num) C)
      → ((a : A) → Keeps view (f a))
      → view (continue r f).1 ≡ view r.1
  Keeps-continue (returned a, s) f h = (h a).at s
  Keeps-continue (threw, s) f h = refl

  pub Keeps-bind :
      (m : Action (Page Num) A) (f : A → Action (Page Num) C)
      → Keeps view m
      → ((a : A) → Keeps view (f a))
      → Keeps view (m >>= f)
  Keeps-bind m f hm hf = record { at = λ p. Keeps-continue (m p) f hf ∙ hm.at p }

module _ {Num B A : Type 0} (view : Page Num → B) where
  pub Keeps-lift : (r : Outcome A) → Keeps view (lift {S = Page Num} r)
  Keeps-lift r = record { at = λ p. refl }

  pub Keeps-pure : (a : A) → Keeps view (pure {S = Page Num} a)
  Keeps-pure a = record { at = λ p. refl }

-- A view that has nothing to do with events and boxes, nor with the plots of the elements `P`.
pub record IsApart {Num B : Type 0} (view : Page Num → B) (P : String → Type 0) : Type 0 where
  pub events : (e : Event Num) (p : Page Num) → view (with_event e p) ≡ view p
  pub boxes : (id : String) (bs : List Box) (p : Page Num) → view (set_boxes id bs p) ≡ view p
  pub plots : (id : String) → P id → (p : Page Num) → view (with_plot id p) ≡ view p

abbrev pub OnOption : (P : String → Type 0) → Option String → Type 0
OnOption P none = Unit
OnOption P (some id) = P id

module _ {Num B : Type 0} (view : Page Num → B) (P : String → Type 0) (apart : IsApart view P) where
  pub Keeps-emit : (e : Event Num) → Keeps view (emit e)
  Keeps-emit e = record { at = λ p. apart.events e p }

  pub Keeps-zoomable :
      (flot : String) (overview : Option String) → Keeps view (set_graph_zoomable flot overview)
  Keeps-zoomable flot none = Keeps-pure view tt
  Keeps-zoomable flot (some overview) = Keeps-emit (zoomable flot overview)

module _ {Num B : Type 0} ⦃num : JsNumber Num⦄ (browser : Browser Num) (view : Page Num → B)
    (P : String → Type 0) (apart : IsApart view P) where
  Keeps-plot :
      (id : String) (ds : List (Series Num)) (o : Options Num)
      → P id
      → Keeps view (plot browser id ds o)
  Keeps-plot id ds o h = record {
    at = λ p. elim (Bool-cases (browser.fits id)) [
      | inl e ↦ rw e (apart.events _ _ ∙ apart.plots id h p)
      | inr e ↦ rw e refl
    ];
  }

  Keeps-plot_overview :
      (id : Option String) (ds : List (Series Num)) (o : Options Num)
      → OnOption P id
      → Keeps view (plot_overview browser id ds o)
  Keeps-plot_overview none ds o h = Keeps-pure view tt
  Keeps-plot_overview (some id) ds o h =
      Keeps-bind view _ _ (Keeps-lift view _) (λ settings. Keeps-plot id ds _ h)

  Keeps-draw :
      (infos : Infos Num) (d : GraphData Num) (ds : List (Series Num)) (o : Options Num)
      → P infos.flot
      → OnOption P infos.overview
      → Keeps view (draw browser infos d ds o)
  unfolding draw
  Keeps-draw infos d ds o h k =
      Keeps-bind view (lift (prepare_options o.settings d)) _ (Keeps-lift view _) (λ prepared.
        Keeps-bind view (lift (with_ticks infos.sets_ticks d prepared)) _ (Keeps-lift view _)
          (λ ticked.
            let final = record o { settings = ticked } in
            Keeps-bind view (plot browser infos.flot ds final) _ (Keeps-plot infos.flot ds final h)
              (λ _. Keeps-plot_overview infos.overview ds final k)))

  pub Keeps-create_graph :
      (infos : Infos Num)
      → P infos.flot
      → OnOption P infos.overview
      → Keeps view (create_graph browser infos)
  unfolding create_graph
  Keeps-create_graph infos h k = record {
    at = λ p.
        (Keeps-draw infos (p.graphs infos.graph)
            (prepare_data (p.graphs infos.graph).result.series (p.boxes infos.choices))
            (infos.get_options (p.graphs infos.graph)) h k).at
          p;
  }

  Keeps-create_legend : (infos : Infos Num) → Keeps view (update (create_legend browser infos))
  unfolding create_legend
  Keeps-create_legend infos = record { at = λ p. apart.boxes infos.choices _ p }

  Keeps-first_graph :
      (infos : Infos Num) (legend : String)
      → P infos.flot
      → OnOption P infos.overview
      → Keeps view (first_graph browser infos legend)
  unfolding first_graph
  Keeps-first_graph infos legend h k =
      Keeps-bind view
        (update (create_legend browser infos)
          >> create_graph browser infos
          >> set_graph_zoomable infos.flot infos.overview)
        _
        (Keeps-bind view (update (create_legend browser infos) >> create_graph browser infos) _
          (Keeps-bind view (update (create_legend browser infos)) _ (Keeps-create_legend infos)
            (λ _. Keeps-create_graph infos h k))
          (λ _. Keeps-zoomable view P apart infos.flot infos.overview))
        (λ _. Keeps-emit view P apart (colored legend infos.choices))

  pub Keeps-show_graph :
      (infos : Infos Num) (legend : String)
      → P infos.flot
      → OnOption P infos.overview
      → Keeps view (show_graph browser infos legend)
  unfolding show_graph
  Keeps-show_graph infos legend h k = record {
    at = λ p. elim (Bool-cases (is_graph infos.flot p)) [
      | inl e ↦ rw e ((Keeps-create_graph infos h k).at p)
      | inr e ↦ rw e ((Keeps-first_graph infos legend h k).at p)
    ];
  }

  Keeps-finish :
      (infos : Infos Num) (fix : Bool) (legend : String) (element : Option String)
      → ((d : GraphData Num) (p : Page Num) → view (set_graph infos.graph d p) ≡ view p)
      → P infos.flot
      → OnOption P infos.overview
      → (p : Page Num) → view (finish browser infos fix legend element p).1 ≡ view p
  unfolding finish fix_graph set_empty_graph
  Keeps-finish infos true legend none g h k p =
      (Keeps-show_graph infos legend h k).at (fix_graph browser infos.graph true p) ∙ g _ p
  Keeps-finish infos false legend none g h k p = (Keeps-show_graph infos legend h k).at p
  Keeps-finish infos fix legend (some element) g h k p = apart.events _ p

  -- Where the view does not depend on the data of the graph either, a refresh keeps it.
  pub Keeps-refresh :
      (infos : Infos Num) (no_match ignore fix : Bool) (body : Option String) (legend : String)
      → ((d : GraphData Num) (p : Page Num) → view (set_graph infos.graph d p) ≡ view p)
      → P infos.flot
      → OnOption P infos.overview
      → Keeps view (refresh browser infos no_match ignore body fix legend)
  unfolding refresh prepare_graph
  Keeps-refresh infos no_match ignore fix body legend g h k = record {
    at = λ p. Keeps-finish infos fix legend _ g h k _ ∙ g _ p;
  }
