-- ===== src/Js/Value.antt =====
-- The values of JavaScript that a response's JSON holds, and the conversions applied to them.
use Prim.Native.String.{◌++◌}
use p_loadtesting.Prelude.{
  String, Bool, true, false, not, List, [], ◌∷◌, str_eq, if◌then◌else◌, length,
}
use p_loadtesting.Js.Number.{JsNumber, is_truthy}
use p_loadtesting.Js.Outcome.{Outcome, returned, threw}
use p_loadtesting.Js.Text.{utf16_length}

mutual
  pub data Value (Num : Type 0) : Type 0 where
    undefined : Value Num
    null : Value Num
    boolean : Bool → Value Num
    number : Num → Value Num
    text : String → Value Num
    array : Values Num → Value Num
    object : Fields Num → Value Num

  pub data Values (Num : Type 0) : Type 0 where
    nil : Values Num
    cons : Value Num → Values Num → Values Num

  pub data Fields (Num : Type 0) : Type 0 where
    end : Fields Num
    field : String → Value Num → Fields Num → Fields Num

module _ {Num : Type 0} where
  abbrev pub elements : Values Num → List (Value Num)
  elements nil = []
  elements (cons v vs) = v ∷ elements vs

  abbrev pub values : List (Value Num) → Values Num
  values [] = nil
  values (v ∷ vs) = cons v (values vs)

  abbrev pub fields : List (String × Value Num) → Fields Num
  fields [] = end
  fields ((k, v) ∷ m) = field k v (fields m)

  abbrev pub get_field : String → Fields Num → Value Num
  get_field k end = undefined
  get_field k (field j v fs) = if str_eq j k then v else get_field k fs

  abbrev pub is_nullish : Value Num → Bool
  is_nullish undefined = true
  is_nullish null = true
  is_nullish _ = false

  -- `value.key`, for a key that is no property of the built-in prototypes
  unfoldable pub property : String → Value Num → Outcome (Value Num)
  property k undefined = threw
  property k null = threw
  property k (object fs) = returned (get_field k fs)
  property k _ = returned undefined

  abbrev pub set_field : String → Value Num → Fields Num → Fields Num
  set_field k v end = field k v end
  set_field k v (field j w fs) =
      let later = set_field k v fs in if str_eq j k then field j v fs else field j w later

  -- The value after `value.key = v`, for a value that is no array.
  unfoldable pub with_property : String → Value Num → Value Num → Outcome (Value Num)
  with_property k v undefined = threw
  with_property k v null = threw
  with_property k v (object fs) = returned (object (set_field k v fs))
  with_property k v other = returned other

  -- Array.isArray
  unfoldable pub is_array : Value Num → Bool
  is_array (array _) = true
  is_array _ = false

  -- `typeof value === 'number'`
  unfoldable pub is_number : Value Num → Bool
  is_number (number _) = true
  is_number _ = false

module _ {Num : Type 0} ⦃num : JsNumber Num⦄ where
  unfoldable mutual
    -- `String(value)`, for arrays and objects that come from JSON
    pub to_text : Value Num → String
    to_text undefined = "undefined"
    to_text null = "null"
    to_text (boolean b) = if b then "true" else "false"
    to_text (number x) = num.show x
    to_text (text s) = s
    to_text (array vs) = join_texts vs
    to_text (object _) = "[object Object]"

    -- `array.join(',')`
    pub join_texts : Values Num → String
    join_texts nil = ""
    join_texts (cons v nil) = if is_nullish v then "" else to_text v
    join_texts (cons v vs) = (if is_nullish v then "" else to_text v) ++ "," ++ join_texts vs

  -- `Number(value)`
  unfoldable pub to_number : Value Num → Num
  unfolding to_text join_texts
  to_number undefined = num.nan
  to_number null = num.of_ℕ 0
  to_number (boolean b) = num.of_ℕ (if b then 1 else 0)
  to_number (number x) = x
  to_number (text s) = num.parse s
  to_number (array vs) = num.parse (join_texts vs)
  to_number (object _) = num.nan

  -- Whether a value counts as true in a condition.
  unfoldable pub to_boolean : Value Num → Bool
  to_boolean undefined = false
  to_boolean null = false
  to_boolean (boolean b) = b
  to_boolean (number x) = is_truthy x
  to_boolean (text s) = not (str_eq s "")
  to_boolean _ = true

  -- `v === w` for values of two different evaluations: arrays and objects are then distinct objects.
  unfoldable pub strict_equal : Value Num → Value Num → Bool
  strict_equal undefined undefined = true
  strict_equal null null = true
  strict_equal (boolean true) (boolean true) = true
  strict_equal (boolean false) (boolean false) = true
  strict_equal (number x) (number y) = num.eq x y
  strict_equal (text s) (text t) = str_eq s t
  strict_equal _ _ = false

  -- `value.length`: of an array the number of its elements, of a text that of its UTF-16 units
  unfoldable pub length_of : Value Num → Outcome (Value Num)
  unfolding utf16_length
  length_of undefined = threw
  length_of null = threw
  length_of (array vs) = returned (number (num.of_ℕ (length (elements vs))))
  length_of (text s) = returned (number (num.of_ℕ (utf16_length s)))
  length_of (object fs) = returned (get_field "length" fs)
  length_of _ = returned undefined
