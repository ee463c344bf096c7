-- ===== src/Apps/Crud/Log.antt =====
-- What target-apps/apps/crud_api.py promises, without its dictionary and its counter: the items are
-- a log of the bodies that were posted, and the id of an item is its place in it, from 1.
use Prim.Native.String.{◌++◌}
use p_loadtesting.Prelude.{
  ℕ, zero, suc, ◌+◌, ◌≡◌, refl, ap, ◌∙◌, Option, none, some, List, [], ◌∷◌, ◌++◌ as append, map,
  length, length-append, arith, get_elem?, find, numbered, length-numbered, put-numbered,
  find-numbered, find-numbered_below, Option-cases, inl, inr,
}
use p_loadtesting.Apps.Crud.{
  ItemCreate, Item, Store, item_of, item_fields, create_item, list_items, get_item, Handlers,
}
use p_loadtesting.Apps.Http.{Reply, reply, http_error}
use p_loadtesting.Apps.Http.Routes.{ℤ, pos, negsuc, show_int}
use p_loadtesting.Js.Value.{number, array, object, end, field, values}

abbrev pub Log : Type 0
Log = List ItemCreate

-- The body that an id stands for.
abbrev pub entry : ℤ → Log → Option ItemCreate
entry (pos (suc n)) log = get_elem? log n
entry _ log = none

-- The items of a log, the first with the id `start`.
abbrev pub items_from : ℕ → Log → List Item
items_from start [] = []
items_from start (b ∷ log) = item_of start b ∷ items_from (suc start) log

abbrev pub log_store : Log → Store
log_store log = record { items = numbered 1 (items_from 1 log); counter = suc (length log) }

length-items_from : (start : ℕ) (log : Log) → length (items_from start log) ≡ length log
length-items_from start [] = refl
length-items_from start (b ∷ log) = ap suc (length-items_from (suc start) log)

pub length-log_store : (log : Log) → length (log_store log).items ≡ length log
length-log_store log = length-numbered 1 (items_from 1 log) ∙ length-items_from 1 log

items_from-append :
    (start last : ℕ) (log : Log) (b : ItemCreate)
    → start + length log ≡ last
    → items_from start (append log (b ∷ [])) ≡ append (items_from start log) (item_of last b ∷ [])
items_from-append start last [] b e = ap (λ n. item_of n b ∷ []) (omega (arith, e))
items_from-append start last (c ∷ log) b e =
    ap (λ is. item_of start c ∷ is) (items_from-append (suc start) last log b (omega (arith, e)))

abbrev item_at : ℕ → Option ItemCreate → Option Item
item_at n none = none
item_at n (some b) = some (item_of n b)

get_elem?-items_from :
    (start n : ℕ) (log : Log)
    → get_elem? (items_from start log) n ≡ item_at (start + n) (get_elem? log n)
get_elem?-items_from start n [] = refl
get_elem?-items_from start zero (b ∷ log) = ap (λ n. some (item_of n b)) (omega arith)
get_elem?-items_from start (suc n) (b ∷ log) =
    get_elem?-items_from (suc start) n log ∙ ap (λ k. item_at k (get_elem? log n)) (omega arith)

find-log :
    (n : ℕ) (log : Log) → find (suc n) (log_store log).items ≡ item_at (suc n) (get_elem? log n)
find-log n log =
    ap (λ k. find k (numbered 1 (items_from 1 log))) (omega arith)
    ∙ find-numbered 1 n (items_from 1 log)
    ∙ get_elem?-items_from 1 n log
    ∙ ap (λ k. item_at k (get_elem? log n)) (omega arith)

module _ {Num : Type 0} (of_int : ℕ → Num) where
  unfoldable pub log_create : ItemCreate → Log → Reply Num × Log
  log_create body log =
      (reply 201 (item_fields of_int (item_of (suc (length log)) body)), append log (body ∷ []))

  unfoldable pub log_list : Log → Reply Num × Log
  log_list log = (
    reply 200 (
        field "items" (array (values (map (λ i. object (item_fields of_int i)) (items_from 1 log))))
          (field "count" (number (of_int (length log))) end)),
    log,
  )

  abbrev pub not_found : ℤ → Reply Num
  not_found item_id = http_error 404 ("Item " ++ show_int item_id ++ " not found.")

  abbrev pub found : ℤ → Option ItemCreate → Reply Num
  found (pos n) (some b) = reply 200 (item_fields of_int (item_of n b))
  found item_id _ = not_found item_id

  unfoldable pub log_get : ℤ → Log → Reply Num × Log
  log_get item_id log = (found item_id (entry item_id log), log)

  unfoldable pub log_handlers : Handlers Num Log
  log_handlers = record { create = log_create; list = log_list; get_one = log_get }

  -- A handler of the code on the items of a log, and what is promised of it.
  abbrev pub on_store : Reply Num × Log → Reply Num × Store
  on_store (rep, log) = (rep, log_store log)

  pub create_item-log :
      (body : ItemCreate) (log : Log)
      → create_item of_int body (log_store log) ≡ on_store (log_create body log)
  unfolding create_item log_create
  create_item-log body log =
      rw
        (
          put-numbered 1 (suc (length log)) (item_of (suc (length log)) body) (items_from 1 log)
              (omega (arith, length-items_from 1 log)),
          items_from-append 1 (suc (length log)) log body (omega arith),
          length-append log (body ∷ []),
        )
        (ap
          (λ n. (
            reply 201 (item_fields of_int (item_of (suc (length log)) body)),
            record {
              items = numbered 1 (append (items_from 1 log) (item_of (suc (length log)) body ∷ []));
              counter = n;
            },
          ))
          (omega arith))

  map-numbered :
      (start : ℕ) (is : List Item)
      → map (λ e. object (item_fields of_int e.1)) (numbered start is)
        ≡ map (λ i. object (item_fields of_int i)) is
  map-numbered start [] = refl
  map-numbered start (i ∷ is) =
      ap (λ vs. object (item_fields of_int i) ∷ vs) (map-numbered (suc start) is)

  pub list_items-log : (log : Log) → list_items of_int (log_store log) ≡ on_store (log_list log)
  unfolding list_items log_list
  list_items-log log =
      rw
        (
          map-numbered 1 (items_from 1 log),
          length-numbered 1 (items_from 1 log),
          length-items_from 1 log,
        )
        refl

  pub get_item-log :
      (item_id : ℤ) (log : Log)
      → get_item of_int item_id (log_store log) ≡ on_store (log_get item_id log)
  unfolding get_item log_get
  get_item-log (negsuc n) log = refl
  get_item-log (pos zero) log = ground (arith, find-numbered_below 1 0 (items_from 1 log))
  get_item-log (pos (suc n)) log = elim (Option-cases (get_elem? log n)) [
    | inl gone ↦ ground (arith, find-log n log)
    | inr (b, e) ↦ ground (arith, find-log n log)
  ]
