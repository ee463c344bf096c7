-- ===== src/Dashboard/Once.antt =====
-- The time stamps of engines/jmeter/html-report/content/js/graph.js are moved once: when a graph is
-- first shown, and not when its panel is closed and opened or its samples are hidden and shown.
use mathlib.Core.Bool.{true≢false}
use p_loadtesting.Prelude.{
  String, ◌≡◌, sym, ◌∙◌, subst, Bool, true, false, Option, List, Bool-cases, inl, inr, ◌==◌, ==_iff,
  if◌then◌else◌,
}
use p_loadtesting.Dashboard.Apart.{data_of, is_plotted, refresh-data_of, refresh-is_plotted}
use p_loadtesting.Dashboard.Elsewhere.{index-injective}
use p_loadtesting.Dashboard.Data.{Series, Browser}
use p_loadtesting.Dashboard.Drawing.{HasRoom}
use p_loadtesting.Dashboard.Own.{moves, IsMoved, refresh-IsRefreshed}
use p_loadtesting.Dashboard.Page.{
  Graph, Event, active_threads_over_time, bytes_throughput_over_time, response_times_over_time,
  latencies_over_time, connect_time_over_time, response_time_percentiles_over_time, hits_per_second,
  codes_per_second, transactions_per_second, total_tps, index, Page, is_graph, emit,
}
use p_loadtesting.Dashboard.Refresh.{refresh}
use p_loadtesting.Dashboard.Safety.{infos_of}
use p_loadtesting.Js.Action.{continue}
use p_loadtesting.Js.Number.{JsNumber}
use p_loadtesting.Js.Outcome.{Outcome, returned, threw}

-- The graphs whose refresh is asked to fix the time stamps.
abbrev pub has_time : Graph → Bool
has_time active_threads_over_time = true
has_time bytes_throughput_over_time = true
has_time response_times_over_time = true
has_time latencies_over_time = true
has_time connect_time_over_time = true
has_time response_time_percentiles_over_time = true
has_time hits_per_second = true
has_time codes_per_second = true
has_time transactions_per_second = true
has_time total_tps = true
has_time _ = false

module _ {Num : Type 0} ⦃num : JsNumber Num⦄ (g : Graph) (original : List (Series Num)) where
  -- A graph that has a plot has its points moved once, or not at all if its axis has no time.
  abbrev pub IsSound : Page Num → Type 0
  IsSound p = IsMoved (if is_plotted g p then moves (has_time g) 0 else 0) original g p

  pub emit-IsSound :
      (r : Outcome (Unit {0}) × Page Num) (e : Event Num)
      → IsSound r.1
      → IsSound (continue r (λ _. emit e)).1
  unfolding is_graph
  emit-IsSound (returned _, q) e s = s
  emit-IsSound (threw, q) e s = s

module _ {Num : Type 0} ⦃num : JsNumber Num⦄ (browser : Browser Num) (g : Graph)
    (original : List (Series Num)) where
  IsSound-same :
      (p q : Page Num)
      → is_plotted g q ≡ is_plotted g p
      → data_of g q ≡ data_of g p
      → IsSound g original p
      → IsSound g original q
  IsSound-same p q e d h = rw e (rw d h)

  own-IsSound :
      (no_match ignore : Bool) (body : Option String) (legend : String) (p : Page Num)
      → HasRoom browser g
      → is_plotted g p ≡ false
      → IsSound g original p
      → IsSound g original
          (refresh browser (infos_of g) no_match ignore body (has_time g) legend p).1
  own-IsSound no_match ignore body legend p room fresh s =
      elim (refresh-IsRefreshed browser g 0 original no_match ignore body (has_time g) legend p room
        (rw fresh at s)) [ inl r ↦ rw (r.0) (r.1) | inr r ↦ r.1.0 _ ]

  pub refresh-IsSound :
      (h : Graph) (no_match ignore : Bool) (body : Option String) (legend : String) (p : Page Num)
      → HasRoom browser g
      → (index g ≡ index h → is_plotted g p ≡ false)
      → IsSound g original p
      → IsSound g original
          (refresh browser (infos_of h) no_match ignore body (has_time h) legend p).1
  refresh-IsSound h no_match ignore body legend p room fresh s =
      elim (Bool-cases (index g == index h)) [
        | inl e ↦
            let same = (==_iff (index g) (index h)).0 e in
            subst
              (λ x.
                IsSound g original
                  (refresh browser (infos_of x) no_match ignore body (has_time x) legend p).1)
              (index-injective g h same)
              (own-IsSound no_match ignore body legend p room (fresh same) s)
        | inr e ↦
            let other =
              λ (d : index g ≡ index h). true≢false (sym ((==_iff (index g) (index h)).1 d) ∙ e) in
            IsSound-same p _
              ((refresh-is_plotted browser g h no_match ignore (has_time h) body legend other).at p)
              ((refresh-data_of browser g h no_match ignore (has_time h) body legend other).at p) s
      ]

  own-again-IsSound :
      (no_match ignore : Bool) (body : Option String) (legend : String) (p : Page Num)
      → HasRoom browser g
      → is_plotted g p ≡ true
      → IsSound g original p
      → IsSound g original (refresh browser (infos_of g) no_match ignore body false legend p).1
  own-again-IsSound no_match ignore body legend p room plotted s =
      elim (refresh-IsRefreshed browser g (moves (has_time g) 0) original no_match ignore body false
        legend p room (rw plotted at s)) [ inl r ↦ rw (r.0) (r.1) | inr r ↦ r.1.0 _ ]

  -- A refresh that is not asked to fix time stamps, of a graph that has a plot.
  pub again-IsSound :
      (h : Graph) (no_match ignore : Bool) (body : Option String) (legend : String) (p : Page Num)
      → HasRoom browser g
      → is_plotted h p ≡ true
      → IsSound g original p
      → IsSound g original (refresh browser (infos_of h) no_match ignore body false legend p).1
  again-IsSound h no_match ignore body legend p room plotted s =
      elim (Bool-cases (index g == index h)) [
        | inl e ↦
            subst
              (λ x.
                is_plotted x p ≡ true
                → IsSound g original
                    (refresh browser (infos_of x) no_match ignore body false legend p).1)
              (index-injective g h ((==_iff (index g) (index h)).0 e))
              (λ own. own-again-IsSound no_match ignore body legend p room own s) plotted
        | inr e ↦
            let other =
              λ (d : index g ≡ index h). true≢false (sym ((==_iff (index g) (index h)).1 d) ∙ e) in
            IsSound-same p _
              ((refresh-is_plotted browser g h no_match ignore false body legend other).at p)
              ((refresh-data_of browser g h no_match ignore false body legend other).at p) s
      ]
