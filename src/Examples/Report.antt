-- ===== src/Examples/Report.antt =====
-- A browser and a page for the examples of the report.
use p_loadtesting.Prelude.{
  ℕ, String, ◌≡◌, refl, ap, ◌∙◌, true, false, Option, none, some, List, [], ◌∷◌, keep, str_eq,
  eq_iff, Bool-cases, inl, inr,
}
use p_loadtesting.Dashboard.Data.{Coord, Series, GraphData, Browser, each_from, IsPlain}
use p_loadtesting.Dashboard.Page.{Page}
use p_loadtesting.Js.Fields.{get_field-set_field}
use p_loadtesting.Js.Naturals.{naturals}
use p_loadtesting.Js.Value.{
  Value, Fields, undefined, null, boolean, number, text, array, object, end, field, get_field,
  set_field,
}

-- A deep copy of the first object that takes over the second.
abbrev mutual
  pub extend : Fields (Option ℕ) → Fields (Option ℕ) → Fields (Option ℕ)
  extend a end = a
  extend a (field k v fs) = set_field k (merge (get_field k a) v) (extend a fs)

  pub merge : Value (Option ℕ) → Value (Option ℕ) → Value (Option ℕ)
  merge src undefined = src
  merge (object fs) (object gs) = object (extend fs gs)
  merge src (object gs) = object gs
  merge src v = v

pub get_field-extend :
    (a b : Fields (Option ℕ)) (key : String)
    → get_field key (extend a b) ≡ merge (get_field key a) (get_field key b)
get_field-extend a end key = refl
get_field-extend a (field k v fs) key = elim (Bool-cases (str_eq k key)) [
  | inl e ↦
      get_field-set_field key k (merge (get_field k a) v) (extend a fs)
      ∙ rw e (ap (λ x. merge (get_field x a) v) ((eq_iff k key).0 e))
  | inr e ↦
      get_field-set_field key k (merge (get_field k a) v) (extend a fs)
      ∙ rw e (get_field-extend a fs key)
]

pub merge-IsPlain : (src v : Value (Option ℕ)) → IsPlain v → merge src v ≡ v
merge-IsPlain src undefined h = elim h [ ]
merge-IsPlain src (object fs) h = elim h [ ]
merge-IsPlain src (array vs) h = elim h [ ]
merge-IsPlain src null h = refl
merge-IsPlain src (boolean b) h = refl
merge-IsPlain src (number x) h = refl
merge-IsPlain src (text s) h = refl

-- There is room for every plot, and a filter is matched by itself alone.
abbrev pub browser : Browser (Option ℕ)
browser = record {
  grep = keep;
  each = each_from 0;
  each_coord = each_from 0;
  extend = extend;
  matches = str_eq;
  lower_case = λ s. s;
  attribute = λ key. key;
  fits = λ id. true;
  grep_lem = λ p ss. refl;
  each_lem = λ f ss. refl;
  each_coord_lem = λ f cs. refl;
  attribute-plain = λ key h. refl;
  extend-taken =
      λ a b key v h e. get_field-extend a b key ∙ rw e (merge-IsPlain (get_field key a) v h);
  extend-kept = λ a b key e. get_field-extend a b key ∙ rw e refl;
  extend-merged = λ a b fs gs key e d. get_field-extend a b key ∙ rw e (rw d refl);
}

abbrev pub point : ℕ → ℕ → Coord (Option ℕ)
point x y = record { x = some x; y = some y }

abbrev pub series : String → List (Coord (Option ℕ)) → Series (Option ℕ)
series label coords = record {
  label = label;
  is_controller = false;
  coords = coords;
  color = undefined;
}

abbrev pub login : Series (Option ℕ)
login = series "GET /login" (point 60000 3 ∷ point 120000 5 ∷ [])

abbrev pub health : Series (Option ℕ)
health = series "GET /api/health" (point 60000 1 ∷ [])

abbrev pub sample : GraphData (Option ℕ)
sample = record {
  result = record {
    series = login ∷ health ∷ [];
    supports_controllers_discrimination = true;
    granularity = 60000;
    ticks = undefined;
  };
  extra_options = none;
}

-- A page whose graphs all have the same data.
abbrev pub page : Page (Option ℕ)
page = record { graphs = λ g. sample; plots = []; boxes = λ id. []; events = [] }
