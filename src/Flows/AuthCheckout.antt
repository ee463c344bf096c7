-- ===== src/Flows/AuthCheckout.antt =====
-- One iteration of engines/k6/target_apps_auth_checkout.js against target-apps/apps/auth_flow_api.py.
use Prim.Native.String.{◌++◌, count}
use p_loadtesting.Prelude.{
  ℕ, ◌+◌, ◌≤◌, ◌<◌, String, ◌≡◌, refl, ap, ◌∙◌, false, Option, some, List, [], ◌∷◌, arith, lookup,
}
use p_loadtesting.Apps.Auth.{Token, Order, State, require_user, use_token}
use p_loadtesting.Apps.Auth.Handlers.{login, checkout, order_body}
use p_loadtesting.Apps.Auth.Laws.{profile_of, spend, bearer_token-append}
use p_loadtesting.Apps.Auth.Requests.{login_request, checkout_request}
use p_loadtesting.Apps.Auth.Serve.{Client, serve, serve-handled, with_body-decoded}
use p_loadtesting.Apps.Auth.Served.{with_access, profile_served-live}
use p_loadtesting.Apps.Http.{Reply, reply}
use p_loadtesting.Env.{Env, setting}
use p_loadtesting.Flows.{
  Delivers, ReadsIntegers, Succeeds, send-Delivers, status-Delivers, check-Delivers,
}
use p_loadtesting.Flows.AuthRefresh.States.{
  first_access, first_token, in_login, in_login-access, in_profile, in_profile-access, login_reply,
  login-in_login,
}
use p_loadtesting.Js.Number.{JsNumber}
use p_loadtesting.Js.Text.{decimal}
use p_loadtesting.Js.Value.{Value, text, number, object, fields, to_text}
use p_loadtesting.K6.{Host, run, post_of, get_of, json_of, json_content}
use p_loadtesting.Scripts.AuthCheckout.{sku, quantity, login_body, checkout_body, iteration}
use p_loadtesting.Scripts.Login.{base_url, username, password}

-- The settings are those of a user who may log in and order.
pub record IsCustomer (env : Env) (q : ℕ) : Type 0 where
  pub name_lo : 1 ≤ count (username env)
  pub name_hi : count (username env) ≤ 64
  pub password : password env ≡ "demo-password"
  pub sku_lo : 1 ≤ count (sku env)
  pub sku_hi : count (sku env) ≤ 64
  pub quantity : setting env "DEMO_QUANTITY" "1" ≡ decimal q
  pub quantity_lo : 1 ≤ q
  pub quantity_hi : q ≤ 10

login_request-plain :
    {Num : Type 0} (as_int : Value Num → Option ℕ) (name word : String)
    → 1 ≤ count name
    → count name ≤ 64
    → word ≡ "demo-password"
    → login_request as_int
        (object (fields (("username", text name) ∷ ("password", text word) ∷ [])))
      ≡ some (record {
        username = name;
        password = "demo-password";
        access_token_uses = 3;
        refresh_uses = 2;
      })
unfolding login_request
login_request-plain as_int name word lo hi same = rw same (ground arith)

checkout_request-fits :
    {Num : Type 0} (as_int : Value Num → Option ℕ) (item : String) (x : Num) (q : ℕ)
    → 1 ≤ count item
    → count item ≤ 64
    → as_int (number x) ≡ some q
    → 1 ≤ q
    → q ≤ 10
    → checkout_request as_int (object (fields (("sku", text item) ∷ ("quantity", number x) ∷ [])))
      ≡ some (record { sku = item; quantity = q })
unfolding checkout_request
checkout_request-fits as_int item x q lo hi ex qlo qhi = ground arith

abbrev pub order_of : State → String → String → ℕ → Order
order_of s user item q = record {
  order_id = s.order_counter;
  username = user;
  sku = item;
  quantity = q;
}

-- The state with an order added.
abbrev pub with_order : Order → State → State
with_order order s = record s {
  orders = (order.order_id, order) ∷ s.orders;
  order_counter = s.order_counter + 1;
}

module _ {Num : Type 0} (of_int : ℕ → Num) (token item : String) (q : ℕ) (t : Token) (s : State)
    (found : lookup token s.access_tokens ≡ some t) where
  -- A live token places an order in its user's name, and loses one use.
  pub checkout-live :
      t.revoked ≡ false
      → 0 < t.uses_left
      → checkout of_int (record { sku = item; quantity = q }) (some ("Bearer " ++ token)) s ≡ (
        reply 200 (order_body of_int (order_of s t.username item q)),
        with_order (order_of s t.username item q) (with_access token (spend t) s),
      )
  unfolding checkout require_user use_token
  checkout-live live left = ground (arith, bearer_token-append token)

module _ {Num : Type 0} ⦃num : JsNumber Num⦄ (as_int : Value Num → Option ℕ) (of_int : ℕ → Num)
    (ints : ReadsIntegers num as_int) (hash : String → String) (env : Env) (q : ℕ)
    (h : IsCustomer env q) (s : State) (jar : Option String) where
  abbrev user : String
  user = username env

  abbrev token : String
  token = first_access hash user 3 2 s

  abbrev token_headers : List (String × String)
  token_headers = ("Authorization", "Bearer " ++ token) ∷ json_content

  abbrev order : Order
  order = order_of s user (sku env) q

  abbrev in_order : State
  in_order =
      with_order order (
        with_access token (spend (spend (first_token hash user 3 2 s)))
          (in_profile hash user 3 2 s))

  abbrev order_reply : Reply Num
  order_reply = reply 200 (order_body of_int order)

  abbrev profile_reply : Reply Num
  profile_reply = reply 200 (profile_of user)

  login_served :
      serve as_int of_int hash
        (post_of (base_url env ++ "/api/login") (json_of (login_body env)) json_content)
        "/api/login"
        (s, jar)
      ≡ (login_reply of_int hash user 3 2 s, (in_login hash user 3 2 s, jar))
  login_served =
      serve-handled as_int of_int hash
        (post_of (base_url env ++ "/api/login") (json_of (login_body env)) json_content)
        "/api/login" s (in_login hash user 3 2 s) jar (login_reply of_int hash user 3 2 s)
        (with_body-decoded (login_request as_int) (login of_int hash) (login_body env) _ s
            (login_request-plain as_int user (password env) h.name_lo h.name_hi h.password)
          ∙ login-in_login of_int hash user 3 2 s)

  profile_served :
      serve as_int of_int hash
        (record (get_of (base_url env ++ "/api/profile")) { headers = token_headers })
        "/api/profile"
        (in_login hash user 3 2 s, jar)
      ≡ (profile_reply, (in_profile hash user 3 2 s, jar))
  unfolding in_profile
  profile_served =
      profile_served-live as_int of_int hash (base_url env ++ "/api/profile") token json_content
        (first_token hash user 3 2 s) (in_login hash user 3 2 s) jar
        (in_login-access hash user 3 2 s) refl (omega arith)

  quantity_eq : as_int (number (quantity env)) ≡ some q
  quantity_eq =
      ap (λ x. as_int (number (num.parse x))) h.quantity
      ∙ ap (λ x. as_int (number x)) (num.parse-decimal q (omega (arith, h.quantity_hi)))
      ∙ ints.as_int-of_ℕ q (omega (arith, h.quantity_hi))

  checkout_served :
      serve as_int of_int hash
        (post_of (base_url env ++ "/api/checkout") (json_of (checkout_body env)) (token_headers))
        "/api/checkout"
        (in_profile hash user 3 2 s, jar)
      ≡ (order_reply, (in_order, jar))
  unfolding in_profile in_login
  checkout_served =
      serve-handled as_int of_int hash
        (post_of (base_url env ++ "/api/checkout") (json_of (checkout_body env)) (token_headers))
        "/api/checkout" (in_profile hash user 3 2 s) in_order jar order_reply
        (with_body-decoded (checkout_request as_int)
            (λ b. checkout of_int b (some ("Bearer " ++ token))) (checkout_body env) _
            (in_profile hash user 3 2 s)
            (checkout_request-fits as_int (sku env) (quantity env) q h.sku_lo h.sku_hi quantity_eq
              h.quantity_lo h.quantity_hi)
          ∙ checkout-live of_int token (sku env) q (spend (first_token hash user 3 2 s))
              (in_profile hash user 3 2 s) (in_profile-access hash user 3 2 s) refl (omega arith))

  in_profile-orders : (in_profile hash user 3 2 s).orders ≡ s.orders
  unfolding in_profile in_login
  in_profile-orders = refl

  -- Against the auth application in any state, an iteration ends without an exception and all its
  -- checks pass, and the order of the settings is then the newest of the application, for a user
  -- name and a sku of 1 to 64 characters, the demo password and a quantity of 1 to 10.
  pub checkout_iteration-Succeeds :
      (k6 : Host Num Client)
      → Delivers k6 (base_url env) (serve as_int of_int hash)
      → Succeeds (run (iteration k6 env) (s, jar))
        × ((run (iteration k6 env) (s, jar)).1.world.0.orders
            ≡ (s.order_counter, order_of s (username env) (sku env) q) ∷ s.orders)
  unfolding iteration to_text
  checkout_iteration-Succeeds k6 d =
      let login = login_reply of_int hash user 3 2 s in
      rw
        (
          send-Delivers d _ "/api/login" (s, jar) _ login refl login_served,
          check-Delivers d "login ok" 200 login refl,
          d.json login "access_token",
          send-Delivers d _ "/api/profile" (in_login hash user 3 2 s, jar) _ profile_reply refl
              profile_served,
          check-Delivers d "profile ok" 200 profile_reply refl,
          send-Delivers d _ "/api/checkout" (in_profile hash user 3 2 s, jar) _ order_reply refl
              checkout_served,
          check-Delivers d "checkout ok" 200 order_reply refl,
        )
        (
          (
            (status-Delivers d 200 order_reply refl, tt),
            (
              (status-Delivers d 200 profile_reply refl, tt),
              ((status-Delivers d 200 login refl, tt), tt),
            ),
          ),
          ap (λ orders. (s.order_counter, order) ∷ orders) in_profile-orders,
        )
