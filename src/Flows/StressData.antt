-- ===== src/Flows/StressData.antt =====
-- The sample that an iteration of engines/k6/stress_data.js adds to its error rate.
use Prim.Native.String.{◌++◌}
use p_loadtesting.Prelude.{
  String, ◌≡◌, refl, ap, Bool, true, false, not, ◌&&◌, some, List, [], ◌∷◌, ◌==◌, arith,
  if◌then◌else◌,
}
use p_loadtesting.Env.{Env}
use p_loadtesting.Flows.Local.{verdict}
use p_loadtesting.Js.Number.{JsNumber}
use p_loadtesting.Js.Outcome.{Outcome, returned, threw, catch, on_value}
use p_loadtesting.Js.Value.{Value, number, array, is_number, is_array, strict_equal}
use p_loadtesting.K6.{
  Session, has_status, Host, Request, Response, Checks, Event, sent, checked, rate_added,
  trend_added, slept, run, post_of, json_of, json_content,
}
use p_loadtesting.Scripts.StressCpu.{has_number}
use p_loadtesting.Scripts.StressData.{
  has_items, base_url, data_payload, iteration, item_count_of, record_count,
}

-- k6's `check` returns whether every check passed, and throws if one throws.
abbrev pub ReturnsVerdict : {Num World : Type 0} → Host Num World → Type 0
ReturnsVerdict k6 = (cs : Checks) → k6.check cs ≡ verdict cs

-- The samples of rates among the events.
abbrev pub rates : {Num : Type 0} → List (Event Num) → List (String × Bool)
rates [] = []
rates (rate_added name value ∷ es) = (name, value) ∷ rates es
rates (sent _ ∷ es) = rates es
rates (checked _ ∷ es) = rates es
rates (trend_added _ _ ∷ es) = rates es
rates (slept _ ∷ es) = rates es

module _ {Num : Type 0} ⦃num : JsNumber Num⦄ where
  abbrev pub is_hundred : Outcome (Value Num) → Bool
  is_hundred (returned (number x)) = num.eq x (num.of_ℕ 100)
  is_hundred _ = false

  abbrev pub is_list : Outcome (Value Num) → Bool
  is_list (returned (array vs)) = true
  is_list _ = false

  -- The answer that the script wants: status 200, a `count` of 100 and an array `items`.
  abbrev pub is_wanted : Response Num → Bool
  is_wanted r = (r.status == 200) && (is_hundred (r.json "count") && is_list (r.json "items"))

  abbrev pub data_request : Env → Request Num
  data_request env =
      record (post_of (base_url env ++ "/api/data") (json_of data_payload) json_content) {
        tag_name = some "POST /api/data";
        timeout = some "30s";
      }

module _ {Num : Type 0} ⦃num : JsNumber Num⦄ where
  abbrev struct_checks : Response Num → Checks
  struct_checks r =
      ("HTTP status is 200", has_status 200 r)
      ∷ ("response has count field", has_number "count" r)
      ∷ ("response has items array", has_items r)
      ∷ []

  -- `structOk`
  abbrev struct_ok : Response Num → Bool
  struct_ok r =
      (r.status == 200)
      && (catch false (on_value (r.json "count") is_number)
          && (catch false (on_value (r.json "items") is_array) && true))

  abbrev data_checks : Response Num → Checks
  data_checks r =
      (
        "count equals 100",
        returned (strict_equal (item_count_of (struct_ok r) r) (number (num.of_ℕ 100))),
      )
      ∷ []

  sample_of : Outcome (Value Num) → Outcome (Value Num) → Bool → Bool
  sample_of count items ok =
      let struct =
        ok
        && (catch false (on_value count is_number)
            && (catch false (on_value items is_array) && true)) in
      struct
      && (strict_equal (if struct then catch (number (num.of_ℕ 0)) count else number (num.of_ℕ 0))
            (number (num.of_ℕ 100))
          && true)

  sample_of-wanted :
      (count items : Outcome (Value Num)) (ok : Bool)
      → sample_of count items ok ≡ ok && (is_hundred count && is_list items)
  unfolding sample_of is_number is_array strict_equal
  sample_of-wanted threw items ok = ground arith
  sample_of-wanted (returned (number x)) threw ok = ground arith
  sample_of-wanted (returned (number x)) (returned (array vs)) ok = ground arith
  sample_of-wanted (returned (number x)) (returned _) ok = ground arith
  sample_of-wanted (returned _) items ok = ground arith

  item_count_of-if :
      (ok : Bool) (r : Response Num)
      → item_count_of ok r
        ≡ (if ok then catch (number (num.of_ℕ 0)) (r.json "count") else number (num.of_ℕ 0))
  unfolding item_count_of
  item_count_of-if true r = refl
  item_count_of-if false r = refl

  struct_ok-wanted :
      (r : Response Num)
      → (struct_ok r
          && (strict_equal (item_count_of (struct_ok r) r) (number (num.of_ℕ 100)) && true))
        ≡ is_wanted r
  unfolding sample_of
  struct_ok-wanted r =
      rw (item_count_of-if (struct_ok r) r)
        (sample_of-wanted (r.json "count") (r.json "items") (r.status == 200))

module _ {Num World : Type 0} ⦃num : JsNumber Num⦄ (k6 : Host Num World) (env : Env) where
  record_count-rates :
      (v : Value Num) (s : Session Num World)
      → rates (record_count k6 env v s).1.events ≡ rates s.events
  unfolding record_count
  record_count-rates v s = ground arith

  -- On a host whose check returns the verdict of its checks, an iteration that gets a response adds
  -- one sample to the error rate, and it is an error exactly if the response is not the wanted one:
  -- status 200, a count of 100 and an array of items.
  pub data_iteration-rates :
      ReturnsVerdict k6
      → (w w' : World) (r : Response Num) → k6.send (data_request env) w ≡ (returned r, w')
      → rates (run (iteration k6 env) w).1.events ≡ ("data_error_rate", not (is_wanted r)) ∷ []
  unfolding iteration
  data_iteration-rates decides w w' r answered =
      rw (answered, decides (struct_checks r), decides (data_checks r), record_count-rates _ _)
        (ap (λ ok. ("data_error_rate", not ok) ∷ []) (struct_ok-wanted r))
