-- ===== src/Apps/Crud/Kept.antt =====
-- The items of target-apps/apps/crud_api.py stay as they were created.
use p_loadtesting.Prelude.{
  ℕ, zero, suc, ◌<◌, String, ◌≡◌, refl, ap, ◌∙◌, Option, none, some, List, [], ◌∷◌, ◌++◌ as append,
  length, arith, get_elem?, get_elem?-append, get_elem?-length, Option-cases, inl, inr, Bool-cases,
  str_eq, leb, ◌&&◌, Bool, false, if◌then◌else◌,
}
use p_loadtesting.Apps.Auth.Serve.{with_body}
use p_loadtesting.Apps.Crud.{
  ItemCreate, Store, new_store, item_create, item_fields, item_of, route_item, route_method,
  route_all, store_handlers, get_item, create_item,
}
use p_loadtesting.Apps.Crud.Log.{
  Log, log_store, log_handlers, get_item-log, create_item-log, entry, log_get, log_create, log_list,
  found, length-log_store,
}
use p_loadtesting.Apps.Crud.Served.{promised, serve_all-promised}
use p_loadtesting.Apps.Http.{Reply, reply, body_field}
use p_loadtesting.Apps.Http.Routes.{ℤ, pos, negsuc, segment_of}
use p_loadtesting.Js.Value.{Value, number}
use p_loadtesting.K6.{Request, Payload, no_payload, json_of, raw, Method, get, post}

-- The second log has the entries of the first at their places.
abbrev pub Grows : Log → Log → Type 0
Grows log later = (n : ℕ) (b : ItemCreate) → get_elem? log n ≡ some b → get_elem? later n ≡ some b

-- The integers from 1 up to a count.
abbrev pub is_id : ℤ → ℕ → Bool
is_id (pos n) count = leb 1 n && leb n count
is_id (negsuc n) count = false

get_elem?-none : (n : ℕ) (log : Log) → get_elem? log n ≡ none → length log < suc n
get_elem?-none n [] e = omega arith
get_elem?-none zero (b ∷ log) e = cc
get_elem?-none (suc n) (b ∷ log) e = omega (arith, get_elem?-none n log e)

get_elem?-some : (n : ℕ) (log : Log) (b : ItemCreate) → get_elem? log n ≡ some b → n < length log
get_elem?-some n [] b e = cc
get_elem?-some zero (c ∷ log) b e = omega arith
get_elem?-some (suc n) (c ∷ log) b e = omega (arith, get_elem?-some n log b e)

module _ {Num : Type 0} (as_int : Value Num → Option ℕ) (of_int : ℕ → Num)
    (path_int : String → Option ℤ) (unrouted : Request Num → Reply Num) where
  posted-Grows :
      (payload : Payload Num) (log : Log)
      → Grows log (with_body (item_create as_int) (log_create of_int) payload log).1
  unfolding log_create
  posted-Grows no_payload log n b e = e
  posted-Grows (raw x) log n b e = e
  posted-Grows (json_of v) log n b e = elim (Option-cases (item_create as_int v)) [
    | inl bad ↦ rw (with_body, bad) e
    | inr (body, ok) ↦ rw (with_body, ok) (get_elem?-append log (body ∷ []) n b e)
  ]

  item-Grows :
      (req : Request Num) (segment : Option String) (log : Log)
      → Grows log (route_item as_int path_int unrouted (log_handlers of_int) req segment log).1
  unfolding log_handlers log_get
  item-Grows req none log n b e = e
  item-Grows req (some segment) log n b e = elim (Option-cases (path_int segment)) [
    | inl bad ↦ rw (route_item, bad) e
    | inr (k, ok) ↦ rw (route_item, ok) e
  ]

  routed-Grows :
      (method : Method) (req : Request Num) (path : String) (log : Log)
      → Grows log
          (route_method as_int path_int unrouted (log_handlers of_int) method req path log).1
  unfolding log_handlers log_list
  routed-Grows post req path log n b e = elim (Bool-cases (str_eq path "/api/items")) [
    | inl f ↦ rw f (posted-Grows req.payload log n b e)
    | inr f ↦ rw f e
  ]
  routed-Grows get req path log n b e = elim (Bool-cases (str_eq path "/health")) [
    | inl f ↦ rw f e
    | inr f ↦ rw f (elim (Bool-cases (str_eq path "/api/items")) [
      | inl g ↦ rw g e
      | inr g ↦ rw g (item-Grows req (segment_of "/api/items/" path) log n b e)
    ])
  ]

  abbrev pub log_after : List (Request Num × String) → Log → Log
  log_after reqs log = (route_all as_int path_int unrouted (log_handlers of_int) reqs log).1

  pub log_after-Grows :
      (reqs : List (Request Num × String)) (log : Log) → Grows log (log_after reqs log)
  unfolding route_all
  log_after-Grows [] log n b e = e
  log_after-Grows ((req, path) ∷ reqs) log n b e =
      log_after-Grows reqs (promised as_int of_int path_int unrouted req path log).1 n b
        (routed-Grows req.method req path log n b e)

  -- What the application keeps after requests from its start.
  abbrev pub stored : List (Request Num × String) → Store
  stored reqs = (route_all as_int path_int unrouted (store_handlers of_int) reqs new_store).1

  stored-log : (reqs : List (Request Num × String)) → stored reqs ≡ log_store (log_after reqs [])
  stored-log reqs = ap (λ r. r.1) (serve_all-promised as_int of_int path_int unrouted reqs [])

  pub get_item-entry :
      (n : ℕ) (log : Log) (b : ItemCreate)
      → get_elem? log n ≡ some b
      → get_item of_int (pos (suc n)) (log_store log)
        ≡ (reply 200 (item_fields of_int (item_of (suc n) b)), log_store log)
  unfolding log_get
  get_item-entry n log b e =
      get_item-log of_int (pos (suc n)) log
      ∙ ap (λ o. (found of_int (pos (suc n)) o, log_store log)) e

  -- Whatever requests the application serves from its start, the item that is created then is
  -- answered with status 201 and an id, and after whatever requests are served later, that id gives
  -- the item of the answer, with status 200.
  pub create_item-get_item :
      (before : List (Request Num × String)) (body : ItemCreate)
      (later : List (Request Num × String))
      → let s = stored before in
        let (created, s₁) = create_item of_int body s in
        let s₂ = (route_all as_int path_int unrouted (store_handlers of_int) later s₁).1 in
        (created.status ≡ 201)
        × ((body_field "id" created.body ≡ number (of_int s.counter))
            × (get_item of_int (pos s.counter) s₂ ≡ (record created { status = 200 }, s₂)))
  unfolding log_create
  create_item-get_item before body later =
      let log = log_after before [] in
      rw
        (
          stored-log before,
          create_item-log of_int body log,
          serve_all-promised as_int of_int path_int unrouted later (append log (body ∷ [])),
        )
        (
          refl,
          (
            refl,
            get_item-entry (length log) (log_after later (append log (body ∷ []))) body (
                log_after-Grows later (append log (body ∷ [])) (length log) body
                  (get_elem?-length log [] body)),
          ),
        )

  status_of-entry :
      (item_id : ℤ) (log : Log)
      → (found of_int item_id (entry item_id log)).status
        ≡ (if is_id item_id (length log) then 200 else 404)
  status_of-entry (negsuc n) log = refl
  status_of-entry (pos zero) log = refl
  status_of-entry (pos (suc n)) log = elim (Option-cases (get_elem? log n)) [
    | inl e ↦ ground (arith, get_elem?-none n log)
    | inr (b, e) ↦ ground (arith, get_elem?-some n log b)
  ]

  -- Whatever requests the application serves from its start, the integers that give an item, with
  -- status 200, are then exactly those from 1 up to the number of items that it keeps; any other
  -- integer, also a negative one, is answered with 404.
  pub get_item-status :
      (item_id : ℤ) (reqs : List (Request Num × String))
      → (get_item of_int item_id (stored reqs)).0.status
        ≡ (if is_id item_id (length (stored reqs).items) then 200 else 404)
  unfolding log_get
  get_item-status item_id reqs =
      let log = log_after reqs [] in
      rw
        (
          stored-log reqs,
          get_item-log of_int item_id log,
          status_of-entry item_id log,
          length-log_store log,
        )
        refl
