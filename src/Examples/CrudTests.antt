-- ===== src/Examples/CrudTests.antt =====
-- target-apps/apps/crud_api.py and engines/k6/target_apps_crud_flow.js on small inputs.
use p_loadtesting.Prelude.{
  ℕ, suc, ◌<◌, length, String, refl, ◌≡◌, false, Option, some, List, [], ◌∷◌, arith,
}
use p_loadtesting.Apps.Crud.{
  ItemCreate, Store, route_all, store_handlers, create_item, get_item, list_items,
}
use p_loadtesting.Apps.Crud.Kept.{stored, log_after, create_item-get_item, get_item-status}
use p_loadtesting.Apps.Crud.Log.{Log, log_store, log_handlers, log_create, log_list}
use p_loadtesting.Apps.Crud.Served.{serve_all-promised}
use p_loadtesting.Apps.Http.{Reply, http_error, body_field}
use p_loadtesting.Apps.Http.Routes.{pos, negsuc}
use p_loadtesting.Examples.Settings.{
  path_int, path_int-ReadsPaths, env_of, as_int, as_int-ReadsIntegers,
}
use p_loadtesting.Flows.{Succeeds}
use p_loadtesting.Flows.Crud.{IsItem, crud_iteration-Succeeds}
use p_loadtesting.Flows.Crud.Others.{Batches, serve_among}
use p_loadtesting.Flows.Local.{local_host, local_host-Delivers}
use p_loadtesting.Js.Naturals.{naturals}
use p_loadtesting.Js.Number.{safe}
use p_loadtesting.Js.Text.{decimal}
use p_loadtesting.Js.Value.{number, text, object, fields}
use p_loadtesting.K6.{Host, Request, run, get_of, post_of, json_of}
use p_loadtesting.Scripts.Crud.{iteration, base_url}

abbrev unrouted : Request (Option ℕ) → Reply (Option ℕ)
unrouted req = http_error 404 "Not Found"

-- One creation of another user, which is refused, one that is not, and a request for the items.
abbrev others : List (Request (Option ℕ) × String)
others =
    (post_of "" (json_of (object (fields (("name", text "") ∷ [])))) [], "/api/items")
    ∷ (post_of "" (json_of (object (fields (("name", text "other") ∷ [])))) [], "/api/items")
    ∷ (get_of "", "/api/items")
    ∷ []

abbrev one_item : Log
one_item = record { name = "first"; value = 7 } ∷ []

abbrev two_items : Log
two_items = record { name = "first"; value = 7 } ∷ record { name = "other"; value = 0 } ∷ []

abbrev start : Store
start = log_store one_item

abbrev after_others : Store
after_others = (route_all as_int path_int unrouted (store_handlers some) others start).1

after_others_items : after_others ≡ log_store two_items
unfolding route_all store_handlers create_item list_items
after_others_items = refl

serve_all-promised_example :
    route_all as_int path_int unrouted (store_handlers some) others start ≡ (
      (route_all as_int path_int unrouted (log_handlers some) others one_item).0,
      log_store (route_all as_int path_int unrouted (log_handlers some) others one_item).1,
    )
serve_all-promised_example = serve_all-promised as_int some path_int unrouted others one_item

abbrev third : ItemCreate
third = record { name = "third"; value = 3 }

-- What the application keeps after the requests of `others`: one item, with the id 1.
abbrev others_stored : Store
others_stored = stored as_int some path_int unrouted others

others_stored-length : length others_stored.items ≡ 1
unfolding route_all store_handlers create_item list_items
others_stored-length = refl

create_item-get_item_example :
    let (created, s₁) = create_item some third others_stored in
    let s₂ = (route_all as_int path_int unrouted (store_handlers some) others s₁).1 in
    (created.status ≡ 201)
    × ((body_field "id" created.body ≡ number (some 2))
        × (get_item some (pos 2) s₂ ≡ (record created { status = 200 }, s₂)))
unfolding route_all store_handlers create_item list_items
create_item-get_item_example =
    create_item-get_item as_int some path_int unrouted others third others

get_item-status_example : (get_item some (negsuc 0) others_stored).0.status ≡ 404
get_item-status_example = get_item-status as_int some path_int unrouted (negsuc 0) others

abbrev crud_host : Host (Option ℕ) (Batches (Option ℕ) × Store)
crud_host =
    local_host (base_url (env_of [])) (serve_among as_int some path_int unrouted)
      (λ url name s. false)

demo-IsItem : IsItem (env_of []) 42
unfolding decimal
demo-IsItem = record {
  name_lo = omega arith;
  name_hi = omega arith;
  written = refl;
  value_hi = omega arith;
}

small_ids : suc (length (log_after as_int some path_int unrouted others one_item)) < safe
unfolding route_all log_handlers log_create log_list
small_ids = omega arith

crud_iteration-Succeeds_example :
    Succeeds (run (iteration crud_host (env_of [])) (others ∷ others ∷ [], start))
crud_iteration-Succeeds_example =
    crud_iteration-Succeeds as_int as_int-ReadsIntegers path_int path_int-ReadsPaths unrouted
      (env_of []) 42 demo-IsItem crud_host
      (local_host-Delivers (base_url (env_of [])) (serve_among as_int some path_int unrouted)
        (λ url name s. false))
      (others ∷ others ∷ []) one_item small_ids
