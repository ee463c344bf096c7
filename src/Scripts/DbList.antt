-- ===== src/Scripts/DbList.antt =====
-- engines/k6/target_apps_db_list_filter.js
use Prim.Native.String.{◌++◌}
use p_loadtesting.Prelude.{String, some, [], ◌∷◌}
use p_loadtesting.Env.{Env, setting}
use p_loadtesting.Js.Number.{JsNumber}
use p_loadtesting.Js.Outcome.{on_value}
use p_loadtesting.Js.Value.{is_array, to_number}
use p_loadtesting.K6.{Host, M, pure, send, check, get_of, has_status, ◌>>=◌, ◌>>◌}
use p_loadtesting.Options.{Options, no_options}

abbrev pub base_url : Env → String
base_url env = setting env "TARGET_URL" "http://127.0.0.1:18089"

abbrev pub category : Env → String
category env = setting env "DB_LIST_CATEGORY" "sales"

abbrev pub status : Env → String
status env = setting env "DB_LIST_STATUS" "ready"

abbrev pub limit : Env → String
limit env = setting env "DB_LIST_LIMIT" "10"

module _ {Num : Type 0} ⦃num : JsNumber Num⦄ where
  unfoldable pub options : Options Num
  options = record no_options {
    vus = some (num.of_ℕ 2);
    iterations = some (num.of_ℕ 4);
    thresholds =
        some
          (("http_req_failed", "rate==0" ∷ []) ∷ (("http_req_duration", "p(95)<3000" ∷ []) ∷ ([])));
  }

abbrev pub list_url : Env → String
list_url env =
    base_url env
    ++ "/api/records?category="
    ++ category env
    ++ "&status="
    ++ status env
    ++ "&limit="
    ++ limit env
    ++ "&sort_by=id&sort_order=asc"

module _ {Num World : Type 0} ⦃num : JsNumber Num⦄ (k6 : Host Num World) (env : Env) where
  unfoldable pub iteration : M Num World (Unit {0})
  iteration = do
    response ← send k6 (record (get_of (list_url env)) { timeout = some "5s" })
    check k6 (
        ("db list status is 200", has_status 200 response)
        ∷ (
          "db list count is bounded",
          on_value (response.json "count") (λ v. num.le (to_number v) (num.parse (limit env))),
        )
        ∷ ("db list items array exists", on_value (response.json "items") is_array)
        ∷ [])
    pure tt
