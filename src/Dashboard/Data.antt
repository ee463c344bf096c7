-- ===== src/Dashboard/Data.antt =====
-- The data of the graphs of engines/jmeter/html-report/content/js/graph.js, the settings of
-- dashboard-commons.js, and what its functions ask of the browser and of jQuery.
use p_loadtesting.Prelude.{ℕ, String, ◌≡◌, Bool, true, Option, List, [], ◌∷◌, keep, suc}
use p_loadtesting.Js.Text.{is_html_plain}
use p_loadtesting.Js.Value.{Value, Fields, get_field, undefined, object, array}

-- A point `[x, y]` of a series.
pub record Coord (Num : Type 0) : Type 0 where
  pub x : Num
  pub y : Num

pub record Series (Num : Type 0) : Type 0 where
  pub label : String
  pub is_controller : Bool
  pub coords : List (Coord Num)
  -- undefined as long as no color is set
  pub color : Value Num

pub record Result (Num : Type 0) : Type 0 where
  pub series : List (Series Num)
  pub supports_controllers_discrimination : Bool
  pub granularity : ℕ
  pub ticks : Value Num

-- The data of a graph; its `extraOptions` may be missing.
pub record GraphData (Num : Type 0) : Type 0 where
  pub result : Result Num
  pub extra_options : Option (Fields Num)

-- The variables at the top of dashboard-commons.js, which nothing changes.
pub record Settings : Type 0 where
  pub show_controllers_only : Bool
  pub series_filter : String
  pub filters_only_sample_series : Bool

-- `$.each` with a function that changes the element, from an index on.
abbrev pub each_from : {A : Type 0} → ℕ → (ℕ → A → A) → List A → List A
each_from i f [] = []
each_from i f (a ∷ later) = f i a ∷ each_from (suc i) f later

-- A value that `$.extend` takes over as it is.
abbrev pub IsPlain : {Num : Type 0} → Value Num → Type 0
IsPlain undefined = ⊥
IsPlain (object _) = ⊥
IsPlain (array _) = ⊥
IsPlain _ = Unit

-- A checkbox of a legend.
pub record Box : Type 0 where
  pub name : String
  pub checked : Bool

abbrev pub all_checked : List String → List Box
all_checked [] = []
all_checked (key ∷ keys) = record { name = key; checked = true } ∷ all_checked keys

-- The options of a graph: values, and the function that builds the text of a tooltip where
-- `tooltipOpts.content` is one.
pub record Options (Num : Type 0) : Type 0 where
  pub settings : Fields Num
  pub content : Option (String → Num → Num → String)

-- jQuery and the browser: `grep` and `each` are `$.grep` and `$.each` on series, `each_coord` is
-- `$.each` on points, `extend a b` is `$.extend(true, {}, a, b)`, `matches filter text` is
-- `new RegExp(filter, 'i').test(text)` for a filter that is a pattern, and `lower_case` is
-- `toLowerCase`; `attribute key` is what `attr("name")` gives of `$('<input … name="' + key + '" … />')`,
-- where `key` is read as HTML; `fits id` says that the page has the element and the element an area, without
-- which `$.plot` throws an error.
pub record Browser (Num : Type 0) : Type 0 where
  pub grep : (Series Num → Bool) → List (Series Num) → List (Series Num)
  pub each : (ℕ → Series Num → Series Num) → List (Series Num) → List (Series Num)
  pub each_coord : (ℕ → Coord Num → Coord Num) → List (Coord Num) → List (Coord Num)
  pub extend : Fields Num → Fields Num → Fields Num
  pub matches : String → String → Bool
  pub lower_case : String → String
  pub attribute : String → String
  pub fits : String → Bool
  pub grep_lem : (p : Series Num → Bool) (ss : List (Series Num)) → grep p ss ≡ keep p ss
  pub each_lem :
      (f : ℕ → Series Num → Series Num) (ss : List (Series Num)) → each f ss ≡ each_from 0 f ss
  pub each_coord_lem :
      (f : ℕ → Coord Num → Coord Num) (cs : List (Coord Num)) → each_coord f cs ≡ each_from 0 f cs
  pub attribute-plain : (key : String) → is_html_plain key ≡ true → attribute key ≡ key
  -- a deep copy of `a` takes over a value of `b` that is no object, and keeps what `b` does not have
  pub extend-taken :
      (a b : Fields Num) (key : String) (v : Value Num)
      → IsPlain v
      → get_field key b ≡ v
      → get_field key (extend a b) ≡ v
  pub extend-kept :
      (a b : Fields Num) (key : String)
      → get_field key b ≡ undefined
      → get_field key (extend a b) ≡ get_field key a
  pub extend-merged :
      (a b fs gs : Fields Num) (key : String)
      → get_field key a ≡ object fs
      → get_field key b ≡ object gs
      → get_field key (extend a b) ≡ object (extend fs gs)
