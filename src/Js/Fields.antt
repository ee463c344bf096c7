-- ===== src/Js/Fields.antt =====
-- Reading the properties of an object after one of them is set.
use p_loadtesting.Prelude.{String, ◌≡◌, refl, eq_iff, arith, str_eq, if◌then◌else◌}
use p_loadtesting.Js.Value.{Value, Fields, end, field, get_field, set_field}

module _ {Num : Type 0} where
  pub get_field-set_field :
      (key other : String) (v : Value Num) (fs : Fields Num)
      → get_field key (set_field other v fs) ≡ (if str_eq other key then v else get_field key fs)
  get_field-set_field key other v end = refl
  get_field-set_field key other v (field j w fs) =
      ground
        (arith, get_field-set_field key other v fs, eq_iff j other, eq_iff j key, eq_iff other key)
