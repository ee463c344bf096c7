-- ===== src/Flows/Crud/Others.antt =====
-- target-apps/apps/crud_api.py while other virtual users send requests too.
use p_loadtesting.Js.Value.{Value}
use p_loadtesting.Prelude.{ℕ, String, ◌≡◌, refl, Option, List, [], ◌∷◌}
use p_loadtesting.Apps.Crud.{Store, route_all, store_handlers}
use p_loadtesting.Apps.Crud.Kept.{log_after}
use p_loadtesting.Apps.Crud.Log.{Log, log_store}
use p_loadtesting.Apps.Crud.Served.{serve, serve_all-promised}
use p_loadtesting.Apps.Http.{Reply}
use p_loadtesting.Apps.Http.Routes.{ℤ}
use p_loadtesting.K6.{Request}

-- A batch of requests of other virtual users for each request of the script: they reach the
-- application first. The batches that a list leaves out are empty.
abbrev pub Batches : Type 0 → Type 0
Batches Num = List (List (Request Num × String))

abbrev pub next : {Num : Type 0} → Batches Num → List (Request Num × String)
next [] = []
next (others ∷ rest) = others

abbrev pub later : {Num : Type 0} → Batches Num → Batches Num
later [] = []
later (others ∷ rest) = rest

module _ {Num : Type 0} (as_int : Value Num → Option ℕ) (of_int : ℕ → Num)
    (path_int : String → Option ℤ) (unrouted : Request Num → Reply Num) where
  -- The application, reached by the others' requests before each request.
  unfoldable pub serve_among :
      Request Num → String → Batches Num × Store → Reply Num × (Batches Num × Store)
  serve_among req path (plan, s) =
      let others = (route_all as_int path_int unrouted (store_handlers of_int) (next plan) s).1 in
      let (rep, s₁) = serve as_int of_int path_int unrouted req path others in
      (rep, (later plan, s₁))

  pub serve_among-log :
      (req : Request Num) (path : String) (plan : Batches Num) (log log' : Log) (rep : Reply Num)
      → serve as_int of_int path_int unrouted req path
          (log_store (log_after as_int of_int path_int unrouted (next plan) log))
        ≡ (rep, log_store log')
      → serve_among req path (plan, log_store log) ≡ (rep, (later plan, log_store log'))
  unfolding serve_among
  serve_among-log req path plan log log' rep e =
      rw (serve_all-promised as_int of_int path_int unrouted (next plan) log, e) refl
