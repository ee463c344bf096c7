-- ===== src/Dashboard/Own.antt =====
-- What a refresh of engines/jmeter/html-report/content/js/graph.js does to its own graph: the points
-- move once if the time stamps are to be fixed, and the graph has a plot, unless no series is left.
use p_loadtesting.Prelude.{
  ℕ, suc, String, ◌≡◌, refl, sym, ◌∙◌, subst, Bool, true, false, Option, none, some, List, [], ◌∷◌,
  Bool-cases, ◌⊎◌, inl, inr, ==_iff,
}
use p_loadtesting.Dashboard.Apart.{
  data_of, is_plotted, data_of-IsApart, is_plotted-IsApart, everywhere,
}
use p_loadtesting.Dashboard.Elsewhere.{graph-infos_of}
use p_loadtesting.Dashboard.Commons.{settings}
use p_loadtesting.Dashboard.Data.{Series, GraphData, Browser}
use p_loadtesting.Dashboard.Drawing.{HasRoom, IsPlotted, create_graph-draws}
use p_loadtesting.Dashboard.Frames.{Keeps-continue, Keeps-show_graph, Keeps-zoomable, Keeps-emit}
use p_loadtesting.Dashboard.Page.{
  Graph, Page, index, is_graph, set_graph, colored, emit, set_empty_graph,
}
use p_loadtesting.Dashboard.Points.{Moved, Moved-fix_time_stamps, Moved-prepare_series}
use p_loadtesting.Dashboard.Refresh.{
  create_graph, create_legend, set_graph_zoomable, first_graph, show_graph, prepare_graph,
  fix_graph, empty_body, finish, refresh,
}
use p_loadtesting.Dashboard.Safety.{infos_of}
use p_loadtesting.Dashboard.Series.{prepare_series}
use p_loadtesting.Js.Action.{continue}
use p_loadtesting.Js.Number.{JsNumber}

-- 28800000 milliseconds, eight hours
abbrev pub time_zone : {Num : Type 0} → ⦃num : JsNumber Num⦄ → Num
time_zone ⦃num⦄ = num.of_ℕ 28800000

-- How often the points are moved after a refresh.
abbrev pub moves : Bool → ℕ → ℕ
moves true k = suc k
moves false k = k

module _ {Num : Type 0} ⦃num : JsNumber Num⦄ where
  -- The points of a graph are the given ones, moved `k` times.
  abbrev pub IsMoved : ℕ → List (Series Num) → Graph → Page Num → Type 0
  IsMoved k original g p = Moved k time_zone original (data_of g p).result.series

  data_of-set_graph-own :
      (g : Graph) (d : GraphData Num) (p : Page Num) → data_of g (set_graph g d p) ≡ d
  data_of-set_graph-own g d p = rw ((==_iff (index g) (index g)).1 refl) refl

module _ {Num : Type 0} ⦃num : JsNumber Num⦄ (browser : Browser Num) (g : Graph) where
  IsMoved-prepare_graph :
      (k : ℕ) (original : List (Series Num)) (no_match ignore : Bool) (p : Page Num)
      → IsMoved k original g p
      → IsMoved k original g (prepare_graph browser g no_match ignore p)
  unfolding prepare_graph
  IsMoved-prepare_graph k original no_match ignore p h =
      rw (data_of-set_graph-own g (prepare_series browser settings no_match ignore (data_of g p)) p)
        (Moved-prepare_series browser k time_zone no_match ignore original (data_of g p) h)

  IsMoved-fix_graph :
      (k : ℕ) (original : List (Series Num)) (fix : Bool) (p : Page Num)
      → IsMoved k original g p
      → IsMoved (moves fix k) original g (fix_graph browser g fix p)
  unfolding fix_graph
  IsMoved-fix_graph k original false p h = h
  IsMoved-fix_graph k original true p h =
      rw (data_of-set_graph-own g _ p) (Moved-fix_time_stamps browser k time_zone original _ h)

module _ {Num : Type 0} ⦃num : JsNumber Num⦄ (browser : Browser Num) (g : Graph) where
  first_graph-draws :
      (legend : String) (p : Page Num)
      → HasRoom browser g
      → IsPlotted browser g (first_graph browser (infos_of g) legend p).1
  unfolding first_graph
  first_graph-draws legend p room =
      let infos = infos_of {Num = Num} g in
      let drawn = create_graph browser infos (create_legend browser infos p) in
      let zoom = set_graph_zoomable {Num = Num} infos.flot infos.overview in
      Keeps-continue (is_plotted g) (continue drawn (λ _. zoom))
        (λ _. emit (colored legend infos.choices))
        (λ _. Keeps-emit (is_plotted g) _ (is_plotted-IsApart g) (colored legend infos.choices))
      ∙ (Keeps-continue (is_plotted g) drawn (λ _. zoom)
            (λ _. Keeps-zoomable (is_plotted g) _ (is_plotted-IsApart g) infos.flot infos.overview)
          ∙ (create_graph-draws browser g (create_legend browser infos p) room).1)

  show_graph-draws :
      (legend : String) (p : Page Num)
      → HasRoom browser g
      → IsPlotted browser g (show_graph browser (infos_of g) legend p).1
  unfolding show_graph
  show_graph-draws legend p room = elim (Bool-cases (is_plotted g p)) [
    | inl e ↦ rw e ((create_graph-draws browser g p room).1)
    | inr e ↦ rw e (first_graph-draws legend p room)
  ]

  -- What a refresh leaves: either the graph has a plot and its points are moved as asked for, or no
  -- series is left, and whether it has a plot is as before.
  abbrev pub IsRefreshed :
      Graph → ℕ → (fix : Bool) → List (Series Num) → Page Num → Page Num → Type 0
  IsRefreshed h k fix original p r =
      ((is_plotted g r ≡ true) × IsMoved (moves fix k) original h r)
      ⊎ ((is_plotted g r ≡ is_plotted g p)
          × (((j : ℕ) → IsMoved j original h r) × ((data_of h r).result.series ≡ [])))

  Moved-none :
      (k j : ℕ) (original : List (Series Num))
      → Moved k time_zone original []
      → Moved j time_zone original []
  Moved-none k j [] h = tt
  Moved-none k j (a ∷ original) h = elim h [ ]

  empty_body-none :
      (body : Option String) (ss : List (Series Num)) (element : String)
      → empty_body body ss ≡ some element
      → ss ≡ []
  empty_body-none (some body) [] element h = refl
  empty_body-none (some body) (a ∷ ss) element h = cc
  empty_body-none none ss element h = cc

  abbrev own : Graph
  own = (infos_of {Num = Num} g).graph

  finish-IsRefreshed :
      (k : ℕ) (original : List (Series Num)) (body : Option String) (fix : Bool) (legend : String)
      (element : Option String) (p : Page Num)
      → HasRoom browser g
      → empty_body body (data_of own p).result.series ≡ element
      → IsMoved k original own p
      → IsRefreshed own k fix original p (finish browser (infos_of g) fix legend element p).1
  unfolding finish set_empty_graph is_graph
  finish-IsRefreshed k original body fix legend none p room e h =
      let q = fix_graph browser own fix p in
      inl (
        show_graph-draws legend q room,
        subst (λ d. Moved (moves fix k) time_zone original d.result.series)
            (sym (
              (Keeps-show_graph browser (data_of own) (λ _. Unit {0}) (data_of-IsApart own)
                  (infos_of g) legend tt (everywhere (infos_of {Num = Num} g).overview)).at
                q))
            (IsMoved-fix_graph browser own k original fix p h),
      )
  finish-IsRefreshed k original body fix legend (some element) p room e h =
      let gone = empty_body-none body _ element e in
      inr (
        refl,
        (
          λ j.
              subst (Moved j time_zone original) (sym gone)
                (Moved-none k j original (subst (Moved k time_zone original) gone h)),
          gone,
        ),
      )

  own-IsRefreshed :
      (k : ℕ) (original : List (Series Num)) (no_match ignore : Bool) (body : Option String)
      (fix : Bool) (legend : String) (p : Page Num)
      → HasRoom browser g
      → IsMoved k original own p
      → IsRefreshed own k fix original p
          (refresh browser (infos_of g) no_match ignore body fix legend p).1
  unfolding refresh prepare_graph is_graph
  own-IsRefreshed k original no_match ignore body fix legend p room h =
      finish-IsRefreshed k original body fix legend _ (prepare_graph browser own no_match ignore p)
        room refl (IsMoved-prepare_graph browser own k original no_match ignore p h)

  pub refresh-IsRefreshed :
      (k : ℕ) (original : List (Series Num)) (no_match ignore : Bool) (body : Option String)
      (fix : Bool) (legend : String) (p : Page Num)
      → HasRoom browser g
      → IsMoved k original g p
      → IsRefreshed g k fix original p
          (refresh browser (infos_of g) no_match ignore body fix legend p).1
  refresh-IsRefreshed k original no_match ignore body fix legend p room =
      subst
        (λ h.
          IsMoved k original h p
          → IsRefreshed h k fix original p
              (refresh browser (infos_of g) no_match ignore body fix legend p).1)
        (graph-infos_of Num g) (own-IsRefreshed k original no_match ignore body fix legend p room)
