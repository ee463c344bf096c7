-- ===== src/Scripts/Crud.antt =====
-- engines/k6/target_apps_crud_flow.js
use Prim.Native.String.{◌++◌}
use p_loadtesting.Prelude.{String, Bool, [], ◌∷◌, some}
use p_loadtesting.Env.{Env, setting}
use p_loadtesting.Js.Number.{JsNumber}
use p_loadtesting.Js.Outcome.{Outcome, on_value}
use p_loadtesting.Js.Value.{Value, text, number, object, fields, to_text, strict_equal}
use p_loadtesting.K6.{
  Host, M, Response, pure, lift, send, check, get_of, post_of, json_of, json_content, has_status,
  ◌>>=◌, ◌>>◌,
}
use p_loadtesting.Options.{Options, no_options}

abbrev pub base_url : Env → String
base_url env = setting env "TARGET_URL" "http://127.0.0.1:18085"

abbrev pub item_name : Env → String
item_name env = setting env "ITEM_NAME" "demo-item"

module _ {Num : Type 0} ⦃num : JsNumber Num⦄ where
  unfoldable pub options : Options Num
  options = record no_options {
    vus = some (num.of_ℕ 5);
    duration = some "20s";
    thresholds =
        some (("http_req_failed", "rate==0" ∷ []) ∷ ("http_req_duration", "p(95)<1500" ∷ []) ∷ []);
  }

  abbrev pub item_value : Env → Num
  item_value env = num.parse (setting env "ITEM_VALUE" "42")

  abbrev pub item_body : Env → Value Num
  item_body env =
      object (fields (("name", text (item_name env)) ∷ ("value", number (item_value env)) ∷ []))

  -- `(r) => r.json(key) === value`
  abbrev pub json_is : String → Value Num → Response Num → Outcome Bool
  json_is key value r = on_value (r.json key) (λ v. strict_equal v value)

module _ {Num World : Type 0} ⦃num : JsNumber Num⦄ (k6 : Host Num World) (env : Env) where
  unfoldable pub iteration : M Num World (Unit {0})
  iteration = do
    create_response ←
        send k6 (post_of (base_url env ++ "/api/items") (json_of (item_body env)) json_content)
    check k6 (("crud create returns 201", has_status 201 create_response) ∷ [])
    item_id ← lift (create_response.json "id")
    get_response ← send k6 (get_of (base_url env ++ "/api/items/" ++ to_text item_id))
    check k6 (
        ("crud get returns 200", has_status 200 get_response)
        ∷ ("crud get returns same id", json_is "id" item_id get_response)
        ∷ [])
    pure tt
