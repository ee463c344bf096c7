-- ===== src/Apps/Crud/Served.antt =====
-- The requests to target-apps/apps/crud_api.py, served one after another, against its log.
use Prim.Native.String.{◌++◌}
use p_loadtesting.Js.Value.{Value}
use p_loadtesting.Prelude.{
  ℕ, String, ◌≡◌, refl, Option, none, some, List, [], ◌∷◌, Option-cases, inl, inr, Bool-cases,
  str_eq,
}
use p_loadtesting.Apps.Auth.Serve.{with_body}
use p_loadtesting.Apps.Crud.{
  Store, Handlers, item_create, route, route_item, route_get, route_method, route_all,
  store_handlers, create_item,
}
use p_loadtesting.Apps.Crud.Log.{
  Log, log_store, log_handlers, on_store, create_item-log, list_items-log, get_item-log, log_create,
}
use p_loadtesting.Apps.Http.{Reply}
use p_loadtesting.Apps.Http.Routes.{ℤ, pos, ReadsPaths, segment_of, segment_of-decimal}
use p_loadtesting.Js.Text.{decimal, strip_prefix}
use p_loadtesting.Js.Text.Prefix.{str_eq-prefix}
use p_loadtesting.K6.{Request, Payload, no_payload, json_of, raw, Method, get, post}

module _ {Num : Type 0} (as_int : Value Num → Option ℕ) (of_int : ℕ → Num)
    (path_int : String → Option ℤ) (unrouted : Request Num → Reply Num) where
  abbrev pub serve : Request Num → String → Store → Reply Num × Store
  serve = route as_int path_int unrouted (store_handlers of_int)

  abbrev pub promised : Request Num → String → Log → Reply Num × Log
  promised = route as_int path_int unrouted (log_handlers of_int)

  posted-log :
      (payload : Payload Num) (log : Log)
      → with_body (item_create as_int) (create_item of_int) payload (log_store log)
        ≡ on_store of_int (with_body (item_create as_int) (log_create of_int) payload log)
  posted-log no_payload log = refl
  posted-log (raw b) log = refl
  posted-log (json_of v) log = elim (Option-cases (item_create as_int v)) [
    | inl bad ↦ rw (with_body, bad) refl
    | inr (body, e) ↦ rw (with_body, e) (create_item-log of_int body log)
  ]

  item-log :
      (req : Request Num) (segment : Option String) (log : Log)
      → route_item as_int path_int unrouted (store_handlers of_int) req segment (log_store log)
        ≡ on_store of_int
            (route_item as_int path_int unrouted (log_handlers of_int) req segment log)
  unfolding store_handlers log_handlers
  item-log req none log = refl
  item-log req (some segment) log = elim (Option-cases (path_int segment)) [
    | inl bad ↦ rw (route_item, bad) refl
    | inr (n, e) ↦ rw (route_item, e) (get_item-log of_int n log)
  ]

  routed-log :
      (method : Method) (req : Request Num) (path : String) (log : Log)
      → route_method as_int path_int unrouted
          (store_handlers of_int)
          method
          req
          path
          (log_store log)
        ≡ on_store of_int
            (route_method as_int path_int unrouted (log_handlers of_int) method req path log)
  unfolding store_handlers log_handlers
  routed-log post req path log = elim (Bool-cases (str_eq path "/api/items")) [
    | inl e ↦ rw e (posted-log req.payload log)
    | inr e ↦ rw e refl
  ]
  routed-log get req path log = elim (Bool-cases (str_eq path "/health")) [
    | inl e ↦ rw e refl
    | inr e ↦ rw e (elim (Bool-cases (str_eq path "/api/items")) [
      | inl f ↦ rw f (list_items-log of_int log)
      | inr f ↦ rw f (item-log req (segment_of "/api/items/" path) log)
    ])
  ]

  pub serve-promised :
      (req : Request Num) (path : String) (log : Log)
      → serve req path (log_store log) ≡ on_store of_int (promised req path log)
  unfolding route
  serve-promised req path log = routed-log req.method req path log

  -- Whatever requests the application serves, one after another, each is answered as its log
  -- promises, and the items that it keeps are then those of the log: the bodies that were accepted,
  -- numbered from 1 in their order, with the next number in the counter.
  pub serve_all-promised :
      (reqs : List (Request Num × String)) (log : Log)
      → route_all as_int path_int unrouted (store_handlers of_int) reqs (log_store log) ≡ (
        (route_all as_int path_int unrouted (log_handlers of_int) reqs log).0,
        log_store (route_all as_int path_int unrouted (log_handlers of_int) reqs log).1,
      )
  unfolding route_all
  serve_all-promised [] log = refl
  serve_all-promised ((req, path) ∷ reqs) log =
      rw (serve-promised req path log, serve_all-promised reqs (promised req path log).1) refl

module _ {Num : Type 0} (as_int : Value Num → Option ℕ) (path_int : String → Option ℤ)
    (paths : ReadsPaths path_int) (unrouted : Request Num → Reply Num) {S : Type 0}
    (handlers : Handlers Num S) where
  -- The path of an item leads to its handler.
  pub route_get-item :
      (req : Request Num) (n : ℕ) (s : S)
      → route_get as_int path_int unrouted handlers req ("/api/items/" ++ decimal n) s
        ≡ handlers.get_one (pos n) s
  unfolding strip_prefix
  route_get-item req n s =
      rw
        (
          str_eq-prefix "/api/items/" (decimal n) "/health" refl,
          str_eq-prefix "/api/items/" (decimal n) "/api/items" refl,
          segment_of-decimal "/api/items/" n,
          route_item,
          paths.path_int-decimal n,
        )
        refl
