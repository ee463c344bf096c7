-- ===== src/Dashboard/Series.antt =====
-- engines/jmeter/html-report/content/js/dashboard-commons.js: the choice, the order and the
-- colors of the series of a graph, and the time stamps of their points.
use p_loadtesting.Prelude.{
  ℕ, String, Bool, not, ◌&&◌, ◌||◌, Option, none, some, List, [], ◌∷◌, map, str_eq, if◌then◌else◌,
}
use p_loadtesting.Dashboard.Commons.{before_by_x, before_caseless}
use p_loadtesting.Dashboard.Data.{Series, Result, GraphData, Settings, Browser, Box, all_checked}
use p_loadtesting.Js.Number.{JsNumber}
use p_loadtesting.Js.Sort.{sort}
use p_loadtesting.Js.Value.{number}

module _ {Num : Type 0} where
  abbrev pub with_series : List (Series Num) → GraphData Num → GraphData Num
  with_series ss d = record {
    result = record {
      series = ss;
      supports_controllers_discrimination = d.result.supports_controllers_discrimination;
      granularity = d.result.granularity;
      ticks = d.result.ticks;
    };
    extra_options = d.extra_options;
  }

  -- The first series whose label is the key.
  unfoldable pub find_series : String → List (Series Num) → Option (Series Num)
  find_series key [] = none
  find_series key (item ∷ ss) =
      let later = find_series key ss in if str_eq item.label key then some item else later

  -- `prepareData` without `customizeSeries`, which no call gives: the boxes are those of the
  -- container.
  unfoldable pub prepare_data : List (Series Num) → List Box → List (Series Num)
  unfolding find_series
  prepare_data ss [] = []
  prepare_data ss (box ∷ boxes) =
      let later = prepare_data ss boxes in
      if box.checked
      then elim (find_series box.name ss) [ none ↦ later | some item ↦ item ∷ later ]
      else later

  abbrev pub labels : List (Series Num) → List String
  labels [] = []
  labels (item ∷ ss) = item.label ∷ labels ss

module _ {Num : Type 0} ⦃num : JsNumber Num⦄ where
  -- The points in order, and the index as color.
  unfoldable pub mark : (no_match_color : Bool) → ℕ → Series Num → Series Num
  unfolding sort before_by_x
  mark no_match_color index item = record {
    label = item.label;
    is_controller = item.is_controller;
    coords = sort before_by_x item.coords;
    color = if no_match_color then item.color else number (num.of_ℕ index);
  }

module _ {Num : Type 0} ⦃num : JsNumber Num⦄ (browser : Browser Num) where
  -- `coord[0] += offset` for each point of each series
  unfoldable pub fix_time_stamps : Num → List (Series Num) → List (Series Num)
  fix_time_stamps offset ss =
      browser.each
        (λ _ item. record {
          label = item.label;
          is_controller = item.is_controller;
          coords =
              browser.each_coord (λ _ c. record { x = num.add c.x offset; y = c.y }) item.coords;
          color = item.color;
        })
        ss

  -- The two filters of `prepareSeries`.
  unfoldable pub filtered : Settings → (ignore_filter : Bool) → Result Num → List (Series Num)
  filtered s ignore_filter result =
      if not ignore_filter
        && (not (str_eq s.series_filter "")
            && (not s.filters_only_sample_series || result.supports_controllers_discrimination))
      then browser.grep (λ item. browser.matches s.series_filter item.label) result.series
      else result.series

  unfoldable pub only_controllers : Settings → Result Num → List (Series Num) → List (Series Num)
  only_controllers s result ss =
      if result.supports_controllers_discrimination && s.show_controllers_only
      then browser.grep (λ item. item.is_controller) ss
      else ss

  unfoldable pub prepare_series :
      Settings → (no_match_color ignore_filter : Bool) → GraphData Num → GraphData Num
  unfolding filtered only_controllers mark
  prepare_series s no_match_color ignore_filter d =
      with_series
        (browser.each (mark no_match_color)
          (only_controllers s d.result (filtered s ignore_filter d.result)))
        d

  -- The boxes that `createLegend` appends to the container, each with the name that the
  -- browser reads in the HTML text with the label.
  unfoldable pub legend_boxes : List (Series Num) → List Box
  unfolding sort before_caseless
  legend_boxes ss = all_checked (map browser.attribute (sort (before_caseless browser) (labels ss)))
