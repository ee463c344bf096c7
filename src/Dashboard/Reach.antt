-- ===== src/Dashboard/Reach.antt =====
-- The pages that a reader of the report of engines/jmeter/html-report/content/js/graph.js comes to.
use p_loadtesting.Prelude.{
  ℕ, String, ◌≡◌, refl, ap, sym, ◌∙◌, Bool, true, false, none, some, List, [], if◌then◌else◌, arith,
}
use p_loadtesting.Dashboard.Actions.{collapse, toggle_all, click_box, ready}
use p_loadtesting.Dashboard.Apart.{data_of, is_plotted, refresh-is_plotted}
use p_loadtesting.Dashboard.Data.{Series, Browser}
use p_loadtesting.Dashboard.Drawing.{HasRoom, IsPlotted}
use p_loadtesting.Dashboard.Graphs.Rates.{hits_per_second_infos, refresh_hits_per_second}
use p_loadtesting.Dashboard.Graphs.Spread.{
  response_time_percentiles_infos, refresh_response_time_percentiles,
}
use p_loadtesting.Dashboard.Graphs.Times.{
  response_times_over_time_infos, refresh_response_time_over_time,
}
use p_loadtesting.Dashboard.Once.{has_time, IsSound, refresh-IsSound}
use p_loadtesting.Dashboard.Own.{time_zone, moves, IsMoved}
use p_loadtesting.Dashboard.Page.{
  listed, Graph, hits_per_second, response_times_over_time, response_time_percentiles, Page,
  is_graph,
}
use p_loadtesting.Dashboard.Points.{Moved-refl}
use p_loadtesting.Dashboard.Safety.{infos_of}
use p_loadtesting.Dashboard.Steps.{collapse-IsSound}
use p_loadtesting.Dashboard.Toggles.{toggle_all-IsSound, click_box-IsSound}
use p_loadtesting.Js.Number.{JsNumber}

-- What a reader does: a panel is opened or closed, all samples of a graph are hidden or shown, or a
-- sample is. Samples are hidden and shown only where the graph has a plot.
pub data Step {Num : Type 0} ⦃num : JsNumber Num⦄ (browser : Browser Num)
    : Page Num → Page Num → Type 0 where
  collapsed : (id : String) (b : Bool) (p : Page Num) → Step browser p (collapse browser id b p).1
  toggled :
      (h : Graph) (checked : Bool) (p : Page Num)
      → IsPlotted browser h p
      → Step browser p (toggle_all browser (infos_of {Num = Num} h).choices checked p).1
  clicked :
      (h : Graph) (i : ℕ) (p : Page Num)
      → IsPlotted browser h p
      → Step browser p (click_box browser (infos_of h) i p).1

-- The pages after `ready`, for a page that has no plots yet.
pub data Reach {Num : Type 0} ⦃num : JsNumber Num⦄ (browser : Browser Num) (start : Page Num)
    : Page Num → Type 0 where
  here : Reach browser start (ready browser start).1
  next : {p q : Page Num} → Reach browser start p → Step browser p q → Reach browser start q

module _ {Num : Type 0} ⦃num : JsNumber Num⦄ (browser : Browser Num) (g : Graph)
    (original : List (Series Num)) (room : HasRoom browser g) where
  Step-IsSound : {p q : Page Num} → Step browser p q → IsSound g original p → IsSound g original q
  unfolding is_graph
  Step-IsSound (collapsed id b p) s = collapse-IsSound browser g original id b p room s
  Step-IsSound (toggled h checked p e) s =
      toggle_all-IsSound browser g original h checked p room e s
  Step-IsSound (clicked h i p e) s = click_box-IsSound browser g original h i p room e s

  -- Each of the three refreshes of `ready` is of a graph that has no plot before.
  ready-IsSound :
      (p : Page Num)
      → is_plotted g p ≡ false
      → IsSound g original p
      → IsSound g original (ready browser p).1
  unfolding ready refresh_hits_per_second refresh_response_time_over_time
      refresh_response_time_percentiles hits_per_second_infos response_times_over_time_infos
      response_time_percentiles_infos
  ready-IsSound p e s =
      let p1 = (refresh_hits_per_second browser true p).1 in
      let p2 = (refresh_response_time_over_time browser true p1).1 in
      let hits =
        refresh-is_plotted browser g hits_per_second false false true none
          "#footerHitsPerSecond .legendColorBox > div" in
      let times =
        refresh-is_plotted browser g response_times_over_time false false true
          (some "#bodyResponseTimeOverTime") "#footerResponseTimesOverTime .legendColorBox > div" in
      refresh-IsSound browser g original response_time_percentiles false false
        (some "#bodyResponseTimePercentiles") "#bodyResponseTimePercentiles .legendColorBox > div"
        p2 room (λ i. (times (λ d. omega arith)).at p1 ∙ ((hits (λ d. omega arith)).at p ∙ e))
        (refresh-IsSound browser g original response_times_over_time false false
          (some "#bodyResponseTimeOverTime") "#footerResponseTimesOverTime .legendColorBox > div" p1
          room (λ i. (hits (λ d. omega arith)).at p ∙ e)
          (refresh-IsSound browser g original hits_per_second false false none
            "#footerHitsPerSecond .legendColorBox > div" p room (λ _. e) s))

  Reach-IsSound :
      (start p : Page Num)
      → is_plotted g start ≡ false
      → IsSound g original start
      → Reach browser start p
      → IsSound g original p
  Reach-IsSound start p e s here = ready-IsSound start e s
  Reach-IsSound start p e s (next r st) = Step-IsSound st (Reach-IsSound start _ e s r)

moves-0 : (b : Bool) → moves b 0 ≡ (if b then 1 else 0)
moves-0 true = refl
moves-0 false = refl

module _ {Num : Type 0} ⦃num : JsNumber Num⦄ (g : Graph) (start : Page Num) where
  start-unplotted : start.plots ≡ [] → is_plotted g start ≡ false
  unfolding is_graph
  start-unplotted e = ap (listed (infos_of {Num = Num} g).flot) e

  start-IsSound : start.plots ≡ [] → IsSound g (data_of g start).result.series start
  start-IsSound e = rw (start-unplotted e) (Moved-refl time_zone (data_of g start).result.series)

-- Take a page that has no plots, and let the reader, once it is ready, open and close panels and,
-- on graphs that have a plot, hide and show samples, in any order. Where a graph with its overview
-- has room on the page and has a plot, its series are those of the beginning in their order, with
-- the same labels, and the points of each are those of the beginning in some order, with eight
-- hours added once to the abscissa if the graph's axis is a time, and with none added if it is not.
pub Reach-IsMoved :
    {Num : Type 0} ⦃num : JsNumber Num⦄ (browser : Browser Num) (g : Graph) (start p : Page Num)
    → start.plots ≡ []
    → HasRoom browser g
    → Reach browser start p
    → IsPlotted browser g p
    → IsMoved (if has_time g then 1 else 0) (data_of g start).result.series g p
Reach-IsMoved browser g start p none_yet room r plotted =
    let s =
      Reach-IsSound browser g (data_of g start).result.series room start p
        (start-unplotted g start none_yet) (start-IsSound g start none_yet) r in
    rw (sym (moves-0 (has_time g))) (rw plotted at s)
