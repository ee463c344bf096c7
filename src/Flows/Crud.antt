-- ===== src/Flows/Crud.antt =====
-- engines/k6/target_apps_crud_flow.js against target-apps/apps/crud_api.py, while other virtual users
-- send requests too.
pub mod Others
use Prim.Native.String.{◌++◌, count}
use p_loadtesting.Prelude.{
  ℕ, suc, ◌≤◌, ◌<◌, String, ◌≡◌, refl, ap, ◌∙◌, true, Option, some, List, [], ◌∷◌, ◌++◌ as append,
  length, arith, get_elem?, get_elem?-length, ==_iff,
}
use p_loadtesting.Apps.Auth.Serve.{with_body-decoded}
use p_loadtesting.Apps.Crud.{
  ItemCreate, Store, item_create, create_item, item_fields, item_of, route, route_all,
  store_handlers,
}
use p_loadtesting.Apps.Crud.Kept.{log_after, log_after-Grows, get_item-entry}
use p_loadtesting.Apps.Crud.Log.{Log, log_store, log_create, create_item-log}
use p_loadtesting.Apps.Crud.Served.{serve, serve_all-promised, route_get-item}
use p_loadtesting.Apps.Http.{Reply, reply}
use p_loadtesting.Apps.Http.Routes.{ℤ, ReadsPaths}
use p_loadtesting.Env.{Env, setting}
use p_loadtesting.Flows.{
  Delivers, ReadsIntegers, Succeeds, send-Delivers, check-Delivers, status-Delivers,
}
use p_loadtesting.Flows.Crud.Others.{Batches, next, later, serve_among, serve_among-log}
use p_loadtesting.Js.Number.{JsNumber, safe}
use p_loadtesting.Js.Outcome.{returned}
use p_loadtesting.Js.Text.{decimal}
use p_loadtesting.Js.Value.{Value, number, text, object, fields, to_text, strict_equal}
use p_loadtesting.K6.{
  Host, Checks, Passes, Request, has_status, run, get_of, post_of, json_of, json_content,
}
use p_loadtesting.Scripts.Crud.{iteration, base_url, item_name, item_value, item_body, json_is}

-- The settings are those of an item that the application takes.
pub record IsItem (env : Env) (value : ℕ) : Type 0 where
  pub name_lo : 1 ≤ count (item_name env)
  pub name_hi : count (item_name env) ≤ 128
  pub written : setting env "ITEM_VALUE" "42" ≡ decimal value
  pub value_hi : value ≤ 1_000_000

safe_value : {env : Env} {value : ℕ} → IsItem env value → value < safe
safe_value h = let small = h.value_hi in omega arith

module _ {Num : Type 0} ⦃num : JsNumber Num⦄ (as_int : Value Num → Option ℕ)
    (ints : ReadsIntegers num as_int) (path_int : String → Option ℤ) (paths : ReadsPaths path_int)
    (unrouted : Request Num → Reply Num) (env : Env) (value : ℕ) (h : IsItem env value) where
  abbrev body : ItemCreate
  body = record { name = item_name env; value = value }

  item_create-fits :
      (name : String) (x : Num)
      → 1 ≤ count name
      → count name ≤ 128
      → as_int (number x) ≡ some value
      → value ≤ 1_000_000
      → item_create as_int (object (fields (("name", text name) ∷ ("value", number x) ∷ [])))
        ≡ some (record { name = name; value = value })
  item_create-fits name x lo hi ex small = ground arith

  item_create-item_body : item_create as_int (item_body env) ≡ some body
  item_create-item_body =
      item_create-fits (item_name env) (item_value env) h.name_lo h.name_hi
        (ap (λ s. as_int (number (num.parse s))) h.written
          ∙ ap (λ x. as_int (number x)) (num.parse-decimal value (safe_value h))
          ∙ ints.as_int-of_ℕ value (safe_value h))
        h.value_hi

  create_request : Request Num
  create_request = post_of (base_url env ++ "/api/items") (json_of (item_body env)) json_content

  created_reply : Log → Reply Num
  created_reply log = reply 201 (item_fields num.of_ℕ (item_of (suc (length log)) body))

  create_served :
      (log : Log)
      → serve as_int num.of_ℕ path_int unrouted create_request "/api/items" (log_store log)
        ≡ (created_reply log, log_store (append log (body ∷ [])))
  unfolding create_request created_reply route store_handlers log_create
  create_served log =
      with_body-decoded (item_create as_int) (create_item num.of_ℕ) (item_body env) body
        (log_store log) item_create-item_body
      ∙ create_item-log num.of_ℕ body log

  get_request : ℕ → Request Num
  get_request n = get_of (base_url env ++ "/api/items/" ++ to_text (number (num.of_ℕ n)))

  get_served :
      (id : ℕ) (log : Log)
      → get_elem? log id ≡ some body
      → serve as_int num.of_ℕ path_int unrouted
          (get_request (suc id))
          ("/api/items/" ++ decimal (suc id))
          (log_store log)
        ≡ (reply 200 (item_fields num.of_ℕ (item_of (suc id) body)), log_store log)
  unfolding route store_handlers get_request
  get_served id log e =
      route_get-item as_int path_int paths unrouted (store_handlers num.of_ℕ) (get_request (suc id))
        (suc id) (log_store log)
      ∙ get_item-entry as_int num.of_ℕ path_int unrouted id log body e

  same_number : (n : ℕ) → n < safe → strict_equal (number (num.of_ℕ n)) (number (num.of_ℕ n)) ≡ true
  unfolding strict_equal
  same_number n small = rw (num.eq-of_ℕ n n small small) ((==_iff n n).1 refl)

  get_request-url :
      (n : ℕ) → n < safe → (get_request n).url ≡ base_url env ++ ("/api/items/" ++ decimal n)
  unfolding get_request to_text
  get_request-url n small = rw (num.show-of_ℕ n small) refl

  abbrev first_log : Batches Num → Log → Log
  first_log plan log = log_after as_int num.of_ℕ path_int unrouted (next plan) log

  abbrev second_log : Batches Num → Log → Log
  second_log plan log =
      log_after as_int num.of_ℕ path_int unrouted (next (later plan))
        (append (first_log plan log) (body ∷ []))

  module _ (k6 : Host Num (Batches Num × Store))
      (d : Delivers k6 (base_url env) (serve_among as_int num.of_ℕ path_int unrouted)) where
    created :
        (plan : Batches Num) (log : Log)
        → k6.send create_request (plan, log_store log) ≡ (
          returned (d.response (created_reply (first_log plan log))),
          (later plan, log_store (append (first_log plan log) (body ∷ []))),
        )
    unfolding create_request
    created plan log =
        send-Delivers d create_request "/api/items" (plan, log_store log)
          (later plan, log_store (append (first_log plan log) (body ∷ [])))
          (created_reply (first_log plan log)) refl
          (serve_among-log as_int num.of_ℕ path_int unrouted create_request "/api/items" plan log
            (append (first_log plan log) (body ∷ [])) (created_reply (first_log plan log))
            (create_served (first_log plan log)))

    abbrev created_id : Batches Num → Log → ℕ
    created_id plan log = suc (length (first_log plan log))

    got :
        (plan : Batches Num) (log : Log)
        → created_id plan log < safe
        → k6.send
            (get_request (created_id plan log))
            (later plan, log_store (append (first_log plan log) (body ∷ [])))
          ≡ (
            returned (
                d.response (reply 200 (item_fields num.of_ℕ (item_of (created_id plan log) body)))),
            (later (later plan), log_store (second_log plan log)),
          )
    got plan log small =
        send-Delivers d (get_request (created_id plan log))
          ("/api/items/" ++ decimal (created_id plan log))
          (later plan, log_store (append (first_log plan log) (body ∷ [])))
          (later (later plan), log_store (second_log plan log))
          (reply 200 (item_fields num.of_ℕ (item_of (created_id plan log) body)))
          (get_request-url (created_id plan log) small)
          (serve_among-log as_int num.of_ℕ path_int unrouted (get_request (created_id plan log))
            ("/api/items/" ++ decimal (created_id plan log)) (later plan)
            (append (first_log plan log) (body ∷ [])) (second_log plan log)
            (reply 200 (item_fields num.of_ℕ (item_of (created_id plan log) body)))
            (get_served (length (first_log plan log)) (second_log plan log) (
              log_after-Grows as_int num.of_ℕ path_int unrouted (next (later plan))
                (append (first_log plan log) (body ∷ [])) (length (first_log plan log)) body
                (get_elem?-length (first_log plan log) [] body))))

    abbrev get_checks : ℕ → Checks
    get_checks n =
        let rep = d.response (reply 200 (item_fields num.of_ℕ (item_of n body))) in
        ("crud get returns 200", has_status 200 rep)
        ∷ ("crud get returns same id", json_is "id" (number (num.of_ℕ n)) rep)
        ∷ []

    get_checks-Passes : (n : ℕ) → n < safe → Passes (get_checks n)
    get_checks-Passes n small =
        let rep = reply 200 (item_fields num.of_ℕ (item_of n body)) in
        (
          status-Delivers d 200 rep refl,
          (rw (d.json rep "id") (ap returned (same_number n small)), tt),
        )

    -- Whatever requests of other virtual users the application serves before each request of the
    -- script, an iteration succeeds: it finds the item that it created, under its id. The settings
    -- are those of an item that the application takes, and there are fewer than 2^53 ids.
    pub crud_iteration-Succeeds :
        (plan : Batches Num) (log : Log)
        → suc (length (first_log plan log)) < safe
        → Succeeds (run (iteration k6 env) (plan, log_store log))
    unfolding iteration create_request get_request created_reply
    crud_iteration-Succeeds plan log small =
        let created_check =
          check-Delivers d "crud create returns 201" 201 (created_reply (first_log plan log))
            refl in
        let found =
          d.passes (get_checks (created_id plan log))
            (get_checks-Passes (created_id plan log) small) in
        rw
          (
            created plan log,
            created_check,
            d.json (created_reply (first_log plan log)) "id",
            got plan log small,
            found,
          )
          (
            get_checks-Passes (created_id plan log) small,
            ((status-Delivers d 201 (created_reply (first_log plan log)) refl, tt), tt),
          )
