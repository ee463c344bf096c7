-- ===== src/Examples/StressTests.antt =====
-- engines/k6/stress_data.js on a host with a fixed answer.
use p_loadtesting.Prelude.{
  ℕ, suc, String, refl, ◌≡◌, false, Option, some, [], ◌∷◌, str_eq, if◌then◌else◌,
}
use p_loadtesting.Examples.Settings.{env_of}
use p_loadtesting.Flows.Local.{verdict}
use p_loadtesting.Flows.StressData.{ReturnsVerdict, rates, data_iteration-rates}
use p_loadtesting.Js.Naturals.{naturals}
use p_loadtesting.Js.Outcome.{Outcome, returned}
use p_loadtesting.Js.Value.{Value, number, array, cons, nil}
use p_loadtesting.K6.{Host, Response, no_body, run}
use p_loadtesting.Scripts.StressData.{iteration}

abbrev hundred_items : String → Outcome (Value (Option ℕ))
hundred_items key =
    if str_eq key "count"
    then returned (number (some 100))
    else returned (array (cons (number (some 1)) nil))

abbrev data_answer : Response (Option ℕ)
data_answer = record {
  status = 200;
  headers = [];
  body = no_body;
  json = hundred_items;
  duration = some 1;
}

abbrev data_host : Host (Option ℕ) ℕ
data_host = record {
  send = λ req w. (returned data_answer, suc w);
  check = verdict;
  has_cookie = λ url name w. false;
}

data_host-ReturnsVerdict : ReturnsVerdict data_host
data_host-ReturnsVerdict cs = refl

data_iteration-rates_example :
    rates (run (iteration data_host (env_of [])) 0).1.events ≡ ("data_error_rate", false) ∷ []
data_iteration-rates_example =
    data_iteration-rates data_host (env_of []) data_host-ReturnsVerdict 0 1 data_answer refl
