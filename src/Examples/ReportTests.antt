-- ===== src/Examples/ReportTests.antt =====
-- The report at concrete inputs.
use p_loadtesting.Prelude.{true, List, [], ◌∷◌, ℕ, ◌≡◌, refl, false, Option}
use p_loadtesting.Dashboard.Actions.{collapse, toggle_all, ready}
use p_loadtesting.Dashboard.Apart.{is_plotted, data_of}
use p_loadtesting.Dashboard.Data.{Coord, Series}
use p_loadtesting.Dashboard.Drawing.{HasRoom, IsPlotted, create_graph-draws}
use p_loadtesting.Dashboard.Early.{toggled_first-IsMoved}
use p_loadtesting.Dashboard.Graphs.Times.{latencies_over_time_infos}
use p_loadtesting.Dashboard.Own.{IsMoved}
use p_loadtesting.Dashboard.Page.{Page, latencies_over_time, is_graph}
use p_loadtesting.Dashboard.Reach.{Reach, here, next, collapsed, toggled, Reach-IsMoved}
use p_loadtesting.Dashboard.Refresh.{create_graph}
use p_loadtesting.Dashboard.Safety.{infos_of}
use p_loadtesting.Js.Naturals.{naturals}
use p_loadtesting.Js.Outcome.{returned}
use p_loadtesting.Examples.Report.{login, health, browser, page, point}

abbrev coords_of : List (Series (Option ℕ)) → List (List (Coord (Option ℕ)))
coords_of [] = []
coords_of (item ∷ items) = item.coords ∷ coords_of items

-- The panel of the latencies is opened, and all samples are hidden.
abbrev opened : Page (Option ℕ)
opened = (collapse browser "bodyLatenciesOverTime" false (ready browser page).1).1

abbrev hidden : Page (Option ℕ)
hidden = (toggle_all browser "choicesLatenciesOverTime" false opened).1

opened-IsPlotted : IsPlotted browser latencies_over_time opened
unfolding is_graph collapse ready
opened-IsPlotted = refl

hidden-IsPlotted : IsPlotted browser latencies_over_time hidden
unfolding is_graph collapse ready toggle_all
hidden-IsPlotted = refl

hidden-Reach : Reach browser page hidden
unfolding toggle_all
hidden-Reach =
    next (next here (collapsed "bodyLatenciesOverTime" false (ready browser page).1))
      (toggled latencies_over_time false opened opened-IsPlotted)

latencies-HasRoom : HasRoom browser latencies_over_time
unfolding latencies_over_time_infos
latencies-HasRoom = (refl, refl)

Reach-IsMoved_example :
    IsMoved 1 (data_of latencies_over_time page).result.series latencies_over_time hidden
Reach-IsMoved_example =
    Reach-IsMoved browser latencies_over_time page hidden refl latencies-HasRoom hidden-Reach
      hidden-IsPlotted

create_graph-draws_example :
    ((create_graph browser (infos_of latencies_over_time) page).0 ≡ returned tt)
    × IsPlotted browser latencies_over_time
        (create_graph browser (infos_of latencies_over_time) page).1
create_graph-draws_example = create_graph-draws browser latencies_over_time page latencies-HasRoom

toggled_first-IsMoved_example :
    IsPlotted browser latencies_over_time
      (collapse browser "bodyLatenciesOverTime" false
        (toggle_all browser "choicesLatenciesOverTime" false page).1).1
    × IsMoved 0
        (login ∷ health ∷ [])
        latencies_over_time
        (collapse browser "bodyLatenciesOverTime" false
          (toggle_all browser "choicesLatenciesOverTime" false page).1).1
unfolding latencies_over_time_infos
toggled_first-IsMoved_example =
    toggled_first-IsMoved browser latencies_over_time false page login (health ∷ []) refl
      latencies-HasRoom

-- All samples are hidden before the panel is opened: the opened graph shows the times as they were.
abbrev hidden_first : Page (Option ℕ)
hidden_first = (toggle_all browser "choicesLatenciesOverTime" false (ready browser page).1).1

hidden_first_times :
    (is_plotted latencies_over_time (collapse browser "bodyLatenciesOverTime" false hidden_first).1
      ≡ true)
    × (coords_of
          (data_of latencies_over_time
            (collapse browser "bodyLatenciesOverTime" false hidden_first).1).result.series
        ≡ (point 120000 5 ∷ point 60000 3 ∷ []) ∷ (point 60000 1 ∷ []) ∷ [])
unfolding is_graph collapse ready toggle_all
hidden_first_times = (refl, refl)

-- In the other order they are moved by eight hours.
opened_first_times :
    coords_of (data_of latencies_over_time hidden).result.series
    ≡ (point 28920000 5 ∷ point 28860000 3 ∷ []) ∷ (point 28860000 1 ∷ []) ∷ []
unfolding collapse ready toggle_all
opened_first_times = refl
