-- ===== src/Apps/Crud.antt =====
-- target-apps/apps/crud_api.py: the items that it keeps, its handlers and its routes.
pub mod Log
pub mod Served
pub mod Kept
use Prim.Native.String.{◌++◌}
use p_loadtesting.Prelude.{
  ℕ, ◌+◌, String, Option, none, some, List, [], ◌∷◌, map, length, find, put, str_eq, if◌then◌else◌,
}
use p_loadtesting.Apps.Auth.Serve.{with_body}
use p_loadtesting.Apps.Http.{
  Reply, reply, http_error, unprocessable, body_field, str_field, int_field, ◌>>=◌,
}
use p_loadtesting.Apps.Http.Routes.{ℤ, pos, negsuc, show_int, segment_of}
use p_loadtesting.Js.Value.{Value, number, text, array, object, Fields, end, field, values}
use p_loadtesting.K6.{Request, Method, get, post}

pub record ItemCreate : Type 0 where
  pub name : String
  pub value : ℕ

-- `{"id": …, "name": …, "value": …}`
pub record Item : Type 0 where
  pub item_id : ℕ
  pub name : String
  pub value : ℕ

-- `_items`, and the number that `_counter` gives next
pub record Store : Type 0 where
  pub items : List (ℕ × Item)
  pub counter : ℕ

abbrev pub new_store : Store
new_store = record { items = []; counter = 1 }

abbrev pub item_of : ℕ → ItemCreate → Item
item_of n body = record { item_id = n; name = body.name; value = body.value }

-- `_items.get(item_id)`; no key is negative
abbrev pub get_key : ℤ → List (ℕ × Item) → Option Item
get_key (pos n) items = find n items
get_key (negsuc n) items = none

module _ {Num : Type 0} (as_int : Value Num → Option ℕ) where
  -- `ItemCreate` as pydantic reads it from a JSON body
  abbrev pub item_create : Value Num → Option ItemCreate
  item_create v = do
    name ← str_field 1 128 (body_field "name" v)
    value ← int_field as_int 0 0 1_000_000 (body_field "value" v)
    some (record { name = name; value = value })

module _ {Num : Type 0} (of_int : ℕ → Num) where
  abbrev pub item_fields : Item → Fields Num
  item_fields i =
      field "id" (number (of_int i.item_id))
        (field "name" (text i.name) (field "value" (number (of_int i.value)) end))

  unfoldable pub create_item : ItemCreate → Store → Reply Num × Store
  create_item body s =
      let item = item_of s.counter body in
      (
        reply 201 (item_fields item),
        record { items = put s.counter item s.items; counter = s.counter + 1 },
      )

  unfoldable pub list_items : Store → Reply Num × Store
  list_items s = (
    reply 200 (
        field "items" (array (values (map (λ e. object (item_fields e.1)) s.items)))
          (field "count" (number (of_int (length s.items))) end)),
    s,
  )

  unfoldable pub get_item : ℤ → Store → Reply Num × Store
  get_item item_id s = elim (get_key item_id s.items) [
    | none ↦ (http_error 404 ("Item " ++ show_int item_id ++ " not found."), s)
    | some item ↦ (reply 200 (item_fields item), s)
  ]

abbrev pub health : {Num : Type 0} → Reply Num
health = reply 200 (field "status" (text "ok") (field "target_app_id" (text "crud-api") end))

-- The handlers of the application on a state: those of the code below, those of its log in Log.
pub record Handlers (Num S : Type 0) : Type 0 where
  pub create : ItemCreate → S → Reply Num × S
  pub list : S → Reply Num × S
  pub get_one : ℤ → S → Reply Num × S

-- The routes. `path_int` is FastAPI's reading of an integer in a path, `unrouted` its answer to a
-- request that no route takes.
module _ {Num : Type 0} (as_int : Value Num → Option ℕ) (path_int : String → Option ℤ)
    (unrouted : Request Num → Reply Num) {S : Type 0} (handlers : Handlers Num S) where
  abbrev pub route_item : Request Num → Option String → S → Reply Num × S
  route_item req none s = (unrouted req, s)
  route_item req (some segment) s = elim (path_int segment) [
    | none ↦ (unprocessable, s)
    | some item_id ↦ handlers.get_one item_id s
  ]

  abbrev pub route_get : Request Num → String → S → Reply Num × S
  route_get req path =
      if str_eq path "/health"
      then (λ s. (health, s))
      else if str_eq path "/api/items"
      then handlers.list
      else route_item req (segment_of "/api/items/" path)

  abbrev pub route_post : Request Num → String → S → Reply Num × S
  route_post req path =
      if str_eq path "/api/items"
      then with_body (item_create as_int) handlers.create req.payload
      else λ s. (unrouted req, s)

  abbrev pub route_method : Method → Request Num → String → S → Reply Num × S
  route_method get = route_get
  route_method post = route_post

  unfoldable pub route : Request Num → String → S → Reply Num × S
  route req path s = route_method req.method req path s

  -- Requests that are served one after another, each given with its path.
  unfoldable pub route_all : List (Request Num × String) → S → List (Reply Num) × S
  unfolding route
  route_all [] s = ([], s)
  route_all ((req, path) ∷ reqs) s =
      let (rep, s₁) = route req path s in let (reps, s₂) = route_all reqs s₁ in (rep ∷ reps, s₂)

module _ {Num : Type 0} (of_int : ℕ → Num) where
  unfoldable pub store_handlers : Handlers Num Store
  store_handlers = record {
    create = create_item of_int;
    list = list_items of_int;
    get_one = get_item of_int;
  }
