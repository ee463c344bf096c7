-- ===== src/Scripts/StressData.antt =====
-- engines/k6/stress_data.js
use Prim.Native.String.{◌++◌}
use p_loadtesting.Prelude.{String, Bool, true, false, not, ◌&&◌, some, [], ◌∷◌, if◌then◌else◌}
use p_loadtesting.Env.{Env, setting}
use p_loadtesting.Js.Number.{JsNumber}
use p_loadtesting.Js.Outcome.{Outcome, returned, catch, on_value}
use p_loadtesting.Js.Value.{Value, text, number, object, fields, is_array, to_number, strict_equal}
use p_loadtesting.K6.{
  Host, M, Response, pure, send, check, post_of, json_of, json_content, has_status, rate_add,
  trend_add, ◌>>=◌, ◌>>◌,
}
use p_loadtesting.Scripts.StressCpu.{has_number}
use p_loadtesting.Options.{Options, no_options}

abbrev pub base_url : Env → String
base_url env = setting env "TARGET_URL" "http://localhost:8000"

module _ {Num : Type 0} ⦃num : JsNumber Num⦄ where
  unfoldable pub options : Options Num
  options = record no_options {
    stages = some (
        record { duration = "10s"; target = num.of_ℕ 20 }
        ∷ (record { duration = "60s"; target = num.of_ℕ 20 } ∷ ([])));
    thresholds = some (
        ("http_req_duration", "p(95)<1500" ∷ [])
        ∷ (("http_req_failed", "rate<0.01" ∷ [])
            ∷ (("data_error_rate", "rate<0.01" ∷ [])
                ∷ (("data_item_count", "min==100" ∷ "max==100" ∷ []) ∷ ([])))));
  }

module _ {Num : Type 0} ⦃num : JsNumber Num⦄ where
  abbrev pub data_payload : Value Num
  data_payload = object (fields (("id", number (num.of_ℕ 1)) ∷ ("payload", text "k6-test") ∷ []))

  abbrev pub has_items : Response Num → Outcome Bool
  has_items r = returned (catch false (on_value (r.json "items") is_array))

  -- `itemCount` after the first check
  unfoldable pub item_count_of : Bool → Response Num → Value Num
  item_count_of true res = catch (number (num.of_ℕ 0)) (res.json "count")
  item_count_of false res = number (num.of_ℕ 0)

module _ {Num World : Type 0} ⦃num : JsNumber Num⦄ (k6 : Host Num World) (env : Env) where
  -- `if (itemCount > 0) { itemCountTrend.add(itemCount); }`
  unfoldable pub record_count : Value Num → M Num World (Unit {0})
  record_count item_count =
      if num.lt (num.of_ℕ 0) (to_number item_count)
      then trend_add "data_item_count" item_count
      else pure tt

  unfoldable pub iteration : M Num World (Unit {0})
  unfolding item_count_of record_count
  iteration = do
    res ←
        send k6
          (record (post_of (base_url env ++ "/api/data") (json_of data_payload) json_content) {
            tag_name = some "POST /api/data";
            timeout = some "30s";
          })
    struct_ok ← check k6 (
        ("HTTP status is 200", has_status 200 res)
        ∷ ("response has count field", has_number "count" res)
        ∷ ("response has items array", has_items res)
        ∷ [])
    let item_count = item_count_of struct_ok res
    data_ok ←
        check k6
          (("count equals 100", returned (strict_equal item_count (number (num.of_ℕ 100)))) ∷ [])
    rate_add "data_error_rate" (not (struct_ok && data_ok))
    record_count item_count
