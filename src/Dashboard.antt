-- ===== src/Dashboard.antt =====
-- engines/jmeter/html-report/content/js/dashboard-commons.js: the texts of durations and of time
-- axes. Durations and granularities are whole numbers of milliseconds.
pub mod Durations
pub mod Data
pub mod Texts
pub mod Commons
pub mod Series
pub mod Page
pub mod Refresh
pub mod Style
pub mod Graphs
pub mod Actions
pub mod Points
pub mod Safety
pub mod Axes
pub mod Drawing
pub mod Frames
pub mod Elsewhere
pub mod Apart
pub mod Own
pub mod Once
pub mod Steps
pub mod Toggles
pub mod Reach
pub mod Order
pub mod Legend
pub mod Tables
pub mod Early
pub mod Overview
pub mod Zoom
use Prim.Native.String.{◌++◌}
use p_loadtesting.Prelude.{
  ℕ, ◌+◌, ◌*◌, ◌/◌, ◌%◌, String, Bool, false, List, [], ◌∷◌, ltb, leb, if◌then◌else◌,
}
use p_loadtesting.Js.Text.{decimal}

unfoldable pub format_unit : ℕ → (unit : String) → (spaced : Bool) → String
unfolding decimal
format_unit value unit spaced =
    if spaced then decimal value ++ " " ++ unit else decimal value ++ unit

-- The five variables of `formatDuration` when its text is built.
pub record Parts : Type 0 where
  pub days : ℕ
  pub hours : ℕ
  pub minutes : ℕ
  pub seconds : ℕ
  pub duration : ℕ

-- The first remainder is by 8640000, as in the source.
unfoldable pub parts : ℕ → Parts
parts duration =
    let after_days = duration % 8640000 in
    let after_hours = after_days % 3600000 in
    let after_minutes = after_hours % 60000 in
    record {
      days = duration / 86400000;
      hours = after_days / 3600000;
      minutes = after_hours / 60000;
      seconds = after_minutes / 1000;
      duration = after_minutes % 1000;
    }

-- `if (value > 0) formatArray.push(formatUnit(value, unit, spaced))`
unfoldable pub push : ℕ → String → Bool → List String → List String
unfolding format_unit
push value unit spaced rest = if ltb 0 value then format_unit value unit spaced ∷ rest else rest

-- `formatArray.join(' ')`
unfoldable pub join_spaced : List String → String
join_spaced [] = ""
join_spaced (text ∷ []) = text
join_spaced (text ∷ texts) = text ++ " " ++ join_spaced texts

-- `formatDuration` of a number; a text is returned as it is.
unfoldable pub format_duration : ℕ → Bool → String
unfolding parts push join_spaced
format_duration duration spaced =
    let p = parts duration in
    join_spaced (
      push p.days " day(s)" spaced (
        push p.hours " hour(s)" spaced (
          push p.minutes " min" spaced
            (push p.seconds " sec" spaced (push p.duration " ms" spaced [])))))

unfoldable pub get_elapsed_time_label : ℕ → String
unfolding format_duration
get_elapsed_time_label granularity =
    "Elapsed Time (granularity: " ++ format_duration granularity false ++ ")"

unfoldable pub get_connect_time_label : ℕ → String
unfolding format_duration
get_connect_time_label granularity =
    "Connect Time (granularity: " ++ format_duration granularity false ++ ")"

unfoldable pub get_time_format : ℕ → String
get_time_format granularity =
    if leb 86400000 granularity
    then "%y/%m/%d"
    else if leb 3600000 granularity
    then "%m/%d %H"
    else if leb 60000 granularity
    then "%d %H:%M"
    else "%H:%M:%S"
