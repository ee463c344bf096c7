-- ===== src/Examples/AuthCheckoutTests.antt =====
-- engines/k6/target_apps_auth_checkout.js against target-apps/apps/auth_flow_api.py, at concrete
-- settings.
use p_loadtesting.Prelude.{◌≡◌, refl, some, none, [], ◌∷◌, arith}
use p_loadtesting.Apps.Auth.{init}
use p_loadtesting.Apps.Auth.Serve.{serve}
use p_loadtesting.Env.{Env}
use p_loadtesting.Examples.AuthRefreshTests.{host, no_cookie}
use p_loadtesting.Examples.Settings.{env_of, as_int, as_int-ReadsIntegers, digest}
use p_loadtesting.Flows.{Succeeds}
use p_loadtesting.Flows.AuthCheckout.{IsCustomer, checkout_iteration-Succeeds}
use p_loadtesting.Flows.Local.{local_host-Delivers}
use p_loadtesting.Js.Naturals.{naturals}
use p_loadtesting.Js.Text.{decimal}
use p_loadtesting.K6.{run}
use p_loadtesting.Scripts.AuthCheckout.{iteration}
use p_loadtesting.Scripts.Login.{base_url}

abbrev two_books : Env
two_books = env_of (("DEMO_SKU", "book") ∷ ("DEMO_QUANTITY", "2") ∷ [])

two_books-IsCustomer : IsCustomer two_books 2
unfolding decimal
two_books-IsCustomer = record {
  name_lo = omega arith;
  name_hi = omega arith;
  password = refl;
  sku_lo = omega arith;
  sku_hi = omega arith;
  quantity = refl;
  quantity_lo = omega arith;
  quantity_hi = omega arith;
}

checkout_iteration-Succeeds_example :
    Succeeds (run (iteration (host two_books) two_books) (init, none))
    × ((run (iteration (host two_books) two_books) (init, none)).1.world.0.orders
        ≡ (1, record { order_id = 1; username = "alice"; sku = "book"; quantity = 2 }) ∷ [])
checkout_iteration-Succeeds_example =
    checkout_iteration-Succeeds as_int some as_int-ReadsIntegers digest two_books 2
      two_books-IsCustomer init none (host two_books)
      (local_host-Delivers (base_url two_books) (serve as_int some digest) no_cookie)
