-- ===== src/K6.antt =====
-- What the scripts ask of k6. k6 is no part of the repository: its HTTP client and its `check` are
-- fields of `Host`, over a state that k6 and the services behind it keep. An iteration of a script
-- is an action of `M`, which also records what the script asked for, the newest first.
use p_loadtesting.Prelude.{
  All, ◌==◌, ◌≡◌, none, ℕ, String, Bool, true, false, Option, List, [], ◌∷◌,
}
use p_loadtesting.Js.Action.{Action}
use p_loadtesting.Js.Outcome.{Outcome, returned}
pub use p_loadtesting.Js.Action.{pure, lift, ◌>>=◌, ◌>>◌}
use p_loadtesting.Js.Value.{Value}

pub data Method : Type 0 where
  get post : Method

-- The body of a request: none, a value that goes through JSON.stringify, or a body taken over.
pub data Body : Type 0 where
  no_body : Body
  characters : String → Body
  bytes : List ℕ → Body

pub data Payload (Num : Type 0) : Type 0 where
  no_payload : Payload Num
  json_of : Value Num → Payload Num
  raw : Body → Payload Num

-- The arguments of `http.get` and `http.post`; `none` is a parameter that the script leaves out.
pub record Request (Num : Type 0) : Type 0 where
  pub method : Method
  pub url : String
  pub payload : Payload Num
  pub headers : List (String × String)
  pub timeout : Option String
  pub binary : Bool
  pub tag_name : Option String

-- The parts of a k6 response that the scripts read. `json key` is `r.json('key')`.
pub record Response (Num : Type 0) : Type 0 where
  pub status : ℕ
  pub headers : List (String × String)
  pub body : Body
  pub json : String → Outcome (Value Num)
  pub duration : Num

abbrev pub Checks : Type 0
Checks = List (String × Outcome Bool)

pub data Event (Num : Type 0) : Type 0 where
  sent : Request Num → Event Num
  checked : Checks → Event Num
  rate_added : String → Bool → Event Num
  trend_added : String → Value Num → Event Num
  slept : ℕ → Event Num

pub record Host (Num World : Type 0) : Type 0 where
  pub send : Request Num → World → Outcome (Response Num) × World
  -- the answer of `check` to its caller
  pub check : Checks → Outcome Bool
  -- whether `http.cookieJar().cookiesForURL(url)` has a cookie of that name
  pub has_cookie : (url name : String) → World → Bool

pub record Session (Num World : Type 0) : Type 0 where
  pub world : World
  pub events : List (Event Num)

-- What a script does in a session.
abbrev pub M : Type 0 → Type 0 → Type 0 → Type 0
M Num World A = Action (Session Num World) A

module _ {Num World : Type 0} where
  abbrev pub record_event : Event Num → M Num World (Unit {0})
  record_event e s = (returned tt, record s { events = e ∷ s.events })

  -- `rate.add(value)` of the custom metric of that name, where the name is that of the constructor
  abbrev pub rate_add : String → Bool → M Num World (Unit {0})
  rate_add name value = record_event (rate_added name value)

  abbrev pub trend_add : String → Value Num → M Num World (Unit {0})
  trend_add name value = record_event (trend_added name value)

  abbrev pub sleep : ℕ → M Num World (Unit {0})
  sleep seconds = record_event (slept seconds)

  -- `http.get(url, …)` and `http.post(url, …)`
  abbrev pub send : Host Num World → Request Num → M Num World (Response Num)
  send k6 req s =
      let (r, w) = k6.send req s.world in (r, record { world = w; events = sent req ∷ s.events })

  abbrev pub has_cookie : Host Num World → String → String → M Num World Bool
  has_cookie k6 url name s = (returned (k6.has_cookie url name s.world), s)

  -- `check(…)`, given what each of its functions returns
  abbrev pub check : Host Num World → Checks → M Num World Bool
  check k6 cs s = (k6.check cs, record s { events = checked cs ∷ s.events })

-- One iteration of a script, from a state of the services.
module _ {Num World A : Type 0} where
  abbrev pub run : M Num World A → World → Outcome A × Session Num World
  run m w = m (record { world = w; events = [] })

-- `http.get(url)` and `http.post(url, …)`, with the parameters that a script leaves out.
module _ {Num : Type 0} where
  abbrev pub get_of : String → Request Num
  get_of url = record {
    method = get;
    url = url;
    payload = no_payload;
    headers = [];
    timeout = none;
    binary = false;
    tag_name = none;
  }

  abbrev pub post_of : String → Payload Num → List (String × String) → Request Num
  post_of url payload headers = record (get_of url) {
    method = post;
    payload = payload;
    headers = headers;
  }

-- `(r) => r.status === code`
module _ {Num : Type 0} where
  abbrev pub has_status : ℕ → Response Num → Outcome Bool
  has_status code r = returned (r.status == code)

abbrev pub json_content : List (String × String)
json_content = ("Content-Type", "application/json") ∷ []

-- Every function of a check returned true.
abbrev pub Passes : Checks → Type 0
Passes cs = All (λ c. c.1 ≡ returned true) cs

-- Every check that the script asked for passes.
abbrev pub AllPass : {Num : Type 0} → List (Event Num) → Type 0
AllPass [] = Unit
AllPass (checked cs ∷ es) = Passes cs × AllPass es
AllPass (_ ∷ es) = AllPass es
