-- ===== src/Scripts/DbCrud.antt =====
-- engines/k6/target_apps_db_crud_flow.js
use Prim.Native.String.{◌++◌}
use p_loadtesting.Prelude.{String, Bool, some, [], ◌∷◌}
use p_loadtesting.Env.{Env, setting}
use p_loadtesting.Js.Number.{JsNumber}
use p_loadtesting.Js.Outcome.{Outcome, on_value}
use p_loadtesting.Js.Value.{Value, text, number, object, fields, to_text, to_number, strict_equal}
use p_loadtesting.K6.{
  Host, M, Response, pure, lift, send, check, get_of, post_of, json_of, json_content, has_status,
  ◌>>=◌, ◌>>◌,
}
use p_loadtesting.Options.{Options, no_options}

abbrev pub base_url : Env → String
base_url env = setting env "TARGET_URL" "http://127.0.0.1:18089"

abbrev pub record_name : Env → String
record_name env = setting env "DB_RECORD_NAME" "smoke-record"

abbrev pub category : Env → String
category env = setting env "DB_RECORD_CATEGORY" "smoke"

abbrev pub status : Env → String
status env = setting env "DB_RECORD_STATUS" "ready"

module _ {Num : Type 0} ⦃num : JsNumber Num⦄ where
  unfoldable pub options : Options Num
  options = record no_options {
    vus = some (num.of_ℕ 2);
    iterations = some (num.of_ℕ 4);
    thresholds =
        some
          (("http_req_failed", "rate==0" ∷ []) ∷ (("http_req_duration", "p(95)<3000" ∷ []) ∷ ([])));
  }

module _ {Num : Type 0} ⦃num : JsNumber Num⦄ where
  abbrev pub create_payload : Env → Value Num
  create_payload env = object (
      fields (
        ("name", text (record_name env))
        ∷ ("category", text (category env))
        ∷ ("status", text (status env))
        ∷ ("value", number (num.parse (setting env "DB_RECORD_VALUE" "17")))
        ∷ []))

  -- `(r) => Number(r.json('id')) > 0`
  abbrev pub has_positive : String → Response Num → Outcome Bool
  has_positive key r = on_value (r.json key) (λ v. num.lt (num.of_ℕ 0) (to_number v))

module _ {Num World : Type 0} ⦃num : JsNumber Num⦄ (k6 : Host Num World) (env : Env) where
  unfoldable pub iteration : M Num World (Unit {0})
  iteration = do
    created ←
        send k6
          (record (post_of (base_url env ++ "/api/records") (json_of (create_payload env))
            json_content) { timeout = some "5s" })
    check k6 (
        ("db create status is 201", has_status 201 created)
        ∷ ("db create returns id", has_positive "id" created)
        ∷ [])
    record_id ← lift (created.json "id")
    fetched ← send k6 (record (get_of (base_url env ++ "/api/records/" ++ to_text record_id)) {
      timeout = some "5s";
    })
    check k6 (
        ("db fetch status is 200", has_status 200 fetched)
        ∷ (
          "db fetch returns created name",
          on_value (fetched.json "name") (λ v. strict_equal v (text (record_name env))),
        )
        ∷ [])
    pure tt
