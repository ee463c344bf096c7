-- ===== src/Apps/Latency.antt =====
-- target-apps/apps/latency_api.py: its handlers and the route of a delay. How long they sleep is not
-- modelled.
use Prim.Native.String.{◌++◌}
use p_loadtesting.Prelude.{ℕ, String, true, false, Option, none, some, ltb, leb, if◌then◌else◌}
use p_loadtesting.Apps.Http.{Reply, reply, http_error, unprocessable}
use p_loadtesting.Apps.Http.Routes.{ℤ, pos, negsuc, segment_of}
use p_loadtesting.Js.Text.{decimal}
use p_loadtesting.Js.Value.{number, boolean, object, end, field}
use p_loadtesting.K6.{Request, Method, get, post}

abbrev pub max_delay_ms : ℕ
max_delay_ms = 5_000

abbrev pub timeout_threshold_ms : ℕ
timeout_threshold_ms = 2_000

abbrev pub delay_error : {Num : Type 0} → Reply Num
delay_error = http_error 422 ("ms must be between 0 and " ++ decimal max_delay_ms ++ ".")

module _ {Num : Type 0} (of_int : ℕ → Num) where
  unfoldable pub delay : ℤ → Reply Num
  delay (negsuc n) = delay_error
  delay (pos ms) =
      if ltb max_delay_ms ms
      then delay_error
      else reply 200 (
          field "requested_delay_ms" (number (of_int ms))
            (field "applied_delay_ms" (number (of_int ms)) (field "timed_out" (boolean false) end)))

  abbrev simulated : ℤ → Reply Num
  simulated (negsuc n) = unprocessable
  simulated (pos ms) =
      if ltb max_delay_ms ms
      then unprocessable
      else if leb timeout_threshold_ms ms
      then record (reply 504 end) {
        body = object (
            field "detail"
              (object (
                field "requested_delay_ms" (number (of_int ms)) (
                  field "timed_out" (boolean true)
                    (field "timeout_threshold_ms" (number (of_int timeout_threshold_ms)) end))))
              end);
      }
      else reply 200 (
          field "requested_delay_ms" (number (of_int ms)) (
            field "timed_out" (boolean false)
              (field "timeout_threshold_ms" (number (of_int timeout_threshold_ms)) end)))

  -- `ms` as FastAPI reads it from the query, `none` where it is missing
  unfoldable pub timeout_simulation : Option ℤ → Reply Num
  timeout_simulation none = simulated (pos 2500)
  timeout_simulation (some ms) = simulated ms

module _ {Num : Type 0} (of_int : ℕ → Num) (path_int : String → Option ℤ)
    (other : Request Num → String → Reply Num) where
  abbrev pub delay_route : Option String → Reply Num → Reply Num
  delay_route none elsewhere = elsewhere
  delay_route (some segment) elsewhere = elim (path_int segment) [
    | none ↦ unprocessable
    | some ms ↦ delay of_int ms
  ]

  abbrev by_method : Method → Request Num → String → Reply Num
  by_method get req path = delay_route (segment_of "/api/delay/" path) (other req path)
  by_method post req path = other req path

  -- `other` is the answer on any other path. The application keeps no state.
  unfoldable pub serve : Request Num → String → Unit {0} → Reply Num × Unit {0}
  serve req path s = (by_method req.method req path, s)
