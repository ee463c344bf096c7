-- ===== src/Dashboard/Graphs/Spread.antt =====
-- engines/jmeter/html-report/content/js/graph.js: the graphs of percentiles and distributions.
use Prim.Native.String.{◌++◌}
use p_loadtesting.Prelude.{ℕ, String, true, false, none, some, [], ◌∷◌}
use p_loadtesting.Dashboard.Data.{GraphData, Options, Browser}
use p_loadtesting.Dashboard.Page.{
  response_time_percentiles, response_time_distribution, synthetic_response_time_distribution, Page,
  Infos,
}
use p_loadtesting.Dashboard.Refresh.{refresh}
use p_loadtesting.Dashboard.Style.{
  obj, natural, literal, axis_label, legend, selection_xy, hoverable, content_text, plain,
}
use p_loadtesting.Js.Action.{Action}
use p_loadtesting.Js.Number.{JsNumber}
use p_loadtesting.Js.Value.{boolean, text, fields}

module _ {Num : Type 0} ⦃num : JsNumber Num⦄ where
  unfoldable pub response_time_percentiles_options : GraphData Num → Options Num
  unfolding axis_label legend
  response_time_percentiles_options _ = plain (
      ("series", obj (("points", obj (("show", boolean false) ∷ [])) ∷ []))
      ∷ ("legend", legend 2 "#legendResponseTimePercentiles")
      ∷ ("xaxis", obj (("tickDecimals", natural 1) ∷ axis_label "Percentiles"))
      ∷ ("yaxis", obj (axis_label "Percentile value in ms"))
      ∷ ("grid", hoverable)
      ∷ ("tooltip", boolean true)
      ∷ ("tooltipOpts", content_text "%s : %x.2 percentile was %y ms")
      ∷ ("selection", selection_xy)
      ∷ [])

  -- `tooltipOpts.content`; `xval + granularity` is a sum of numbers
  unfoldable pub response_time_distribution_content : ℕ → String → Num → Num → String
  response_time_distribution_content granularity label xval yval =
      num.show yval
      ++ " responses for "
      ++ label
      ++ " were between "
      ++ num.show xval
      ++ " and "
      ++ num.show (num.add xval (num.of_ℕ granularity))
      ++ " ms"

  unfoldable pub response_time_distribution_options : GraphData Num → Options Num
  unfolding axis_label legend response_time_distribution_content
  response_time_distribution_options data_of = record {
    settings = fields (
        ("legend", legend 2 "#legendResponseTimeDistribution")
        ∷ ("xaxis", obj (axis_label "Response times in ms"))
        ∷ ("yaxis", obj (axis_label "Number of responses"))
        ∷ (
          "bars",
          obj (("show", boolean true) ∷ ("barWidth", natural data_of.result.granularity) ∷ []),
        )
        ∷ ("grid", hoverable)
        ∷ ("tooltip", boolean true)
        ∷ ("tooltipOpts", obj [])
        ∷ []);
    content = some (response_time_distribution_content data_of.result.granularity);
  }

  unfoldable pub synthetic_content : String → Num → Num → String
  synthetic_content label xval yval = num.show yval ++ " " ++ label

  unfoldable pub synthetic_response_time_distribution_options : GraphData Num → Options Num
  unfolding axis_label legend synthetic_content
  synthetic_response_time_distribution_options _ = record {
    settings = fields (
        ("legend", legend 2 "#legendSyntheticResponseTimeDistribution")
        ∷ (
          "xaxis",
          obj (
              ("tickLength", natural 0)
              ∷ ("min", literal "-0.5")
              ∷ ("max", literal "3.5")
              ∷ axis_label "Response times ranges"),
        )
        ∷ ("yaxis", obj (axis_label "Number of responses"))
        ∷ (
          "bars",
          obj (
              ("show", boolean true)
              ∷ ("align", text "center")
              ∷ ("barWidth", literal "0.25")
              ∷ ("fill", literal ".75")
              ∷ []),
        )
        ∷ ("grid", hoverable)
        ∷ ("tooltip", boolean true)
        ∷ ("tooltipOpts", obj [])
        ∷ []);
    content = some synthetic_content;
  }

  unfoldable pub response_time_percentiles_infos : Infos Num
  unfolding response_time_percentiles_options
  response_time_percentiles_infos = record {
    graph = response_time_percentiles;
    get_options = response_time_percentiles_options;
    choices = "choicesResponseTimePercentiles";
    flot = "flotResponseTimesPercentiles";
    overview = some "overviewResponseTimesPercentiles";
    sets_ticks = false;
  }

  unfoldable pub response_time_distribution_infos : Infos Num
  unfolding response_time_distribution_options
  response_time_distribution_infos = record {
    graph = response_time_distribution;
    get_options = response_time_distribution_options;
    choices = "choicesResponseTimeDistribution";
    flot = "flotResponseTimeDistribution";
    overview = none;
    sets_ticks = false;
  }

  unfoldable pub synthetic_response_time_distribution_infos : Infos Num
  unfolding synthetic_response_time_distribution_options
  synthetic_response_time_distribution_infos = record {
    graph = synthetic_response_time_distribution;
    get_options = synthetic_response_time_distribution_options;
    choices = "choicesSyntheticResponseTimeDistribution";
    flot = "flotSyntheticResponseTimeDistribution";
    overview = none;
    sets_ticks = true;
  }

module _ {Num : Type 0} ⦃num : JsNumber Num⦄ (browser : Browser Num) where
  unfoldable pub refresh_response_time_percentiles : Action (Page Num) (Unit {0})
  unfolding refresh response_time_percentiles_infos
  refresh_response_time_percentiles =
      refresh browser response_time_percentiles_infos false false
        (some "#bodyResponseTimePercentiles") false
        "#bodyResponseTimePercentiles .legendColorBox > div"

  unfoldable pub refresh_response_time_distribution : Action (Page Num) (Unit {0})
  unfolding refresh response_time_distribution_infos
  refresh_response_time_distribution =
      refresh browser response_time_distribution_infos false false
        (some "#bodyResponseTimeDistribution") false
        "#footerResponseTimeDistribution .legendColorBox > div"

  unfoldable pub refresh_synthetic_response_time_distribution : Action (Page Num) (Unit {0})
  unfolding refresh synthetic_response_time_distribution_infos
  refresh_synthetic_response_time_distribution =
      refresh browser synthetic_response_time_distribution_infos true false none false
        "#footerSyntheticResponseTimeDistribution .legendColorBox > div"
