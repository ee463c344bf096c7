-- ===== src/Flows/Latency.antt =====
-- engines/k6/target_apps_latency_delay.js against target-apps/apps/latency_api.py.
use Prim.Native.String.{◌++◌}
use p_loadtesting.Prelude.{
  ℕ, ◌≤◌, ◌<◌, String, ◌≡◌, ◌↔◌, refl, ap, true, false, Option, [], ◌∷◌, arith, ltb, ltb→lt, ==_iff,
  Bool-cases, inl, inr,
}
use p_loadtesting.Apps.Http.{Reply, reply}
use p_loadtesting.Apps.Http.Routes.{ℤ, pos, ReadsPaths, segment_of-decimal}
use p_loadtesting.Apps.Latency.{delay, delay_route, delay_error, serve}
use p_loadtesting.Env.{Env}
use p_loadtesting.Flows.{Delivers, Succeeds, send-Delivers, status-Delivers, wrong_status-Delivers}
use p_loadtesting.Flows.Extends.{Extends-pure, check-fails}
use p_loadtesting.Js.Number.{JsNumber, safe}
use p_loadtesting.Js.Outcome.{returned, on_value}
use p_loadtesting.Js.Text.{decimal}
use p_loadtesting.Js.Value.{number, boolean, field, end, strict_equal}
use p_loadtesting.K6.{Host, Request, Checks, Passes, has_status, run, get_of, pure}
use p_loadtesting.Scripts.Latency.{iteration, base_url, delay_ms}

module _ {Num : Type 0} ⦃num : JsNumber Num⦄ (path_int : String → Option ℤ)
    (paths : ReadsPaths path_int) (other : Request Num → String → Reply Num) (env : Env) (ms : ℕ)
    (written : delay_ms env ≡ decimal ms) (small : ms < safe) (k6 : Host Num (Unit {0}))
    (d : Delivers k6 (base_url env) (serve num.of_ℕ path_int other)) where
  abbrev delay_request : Request Num
  delay_request = get_of (base_url env ++ "/api/delay/" ++ delay_ms env)

  abbrev answer : Reply Num
  answer = delay num.of_ℕ (pos ms)

  served :
      serve num.of_ℕ path_int other delay_request ("/api/delay/" ++ decimal ms) tt ≡ (answer, tt)
  unfolding serve
  served = rw (segment_of-decimal "/api/delay/" ms, delay_route, paths.path_int-decimal ms) refl

  sent : k6.send delay_request tt ≡ (returned (d.response answer), tt)
  sent =
      send-Delivers d delay_request ("/api/delay/" ++ decimal ms) tt tt answer
        (ap (λ s. base_url env ++ "/api/delay/" ++ s) written) served

  abbrev delay_checks : Reply Num → Checks
  delay_checks rep =
      ("delay status is 200", has_status 200 (d.response rep))
      ∷ (
        "delay value matches",
        on_value ((d.response rep).json "applied_delay_ms")
            (λ v. strict_equal v (number (num.parse (delay_ms env)))),
      )
      ∷ []

  matches : strict_equal (number (num.of_ℕ ms)) (number (num.parse (delay_ms env))) ≡ true
  unfolding strict_equal
  matches =
      rw (written, num.parse-decimal ms small, num.eq-of_ℕ ms ms small small)
        ((==_iff ms ms).1 refl)

  abbrev delayed : Reply Num
  delayed = reply 200 (
      field "requested_delay_ms" (number (num.of_ℕ ms))
        (field "applied_delay_ms" (number (num.of_ℕ ms)) (field "timed_out" (boolean false) end)))

  answer_short : ltb 5000 ms ≡ false → answer ≡ delayed
  unfolding delay
  answer_short fits = rw fits refl

  answer_long : ltb 5000 ms ≡ true → answer ≡ delay_error
  unfolding delay
  answer_long long = rw long refl

  delayed-Passes : Passes (delay_checks delayed)
  delayed-Passes = (
    status-Delivers d 200 delayed refl,
    (rw (d.json delayed "applied_delay_ms") (ap returned matches), tt),
  )

  refused-fails : ¬ Passes (delay_checks delay_error)
  refused-fails (e, _) =
      wrong_status-Delivers d "delay status is 200" 200 delay_error (λ h. omega (arith, h)) (e, tt)

  Succeeds-short : ltb 5000 ms ≡ false → Succeeds (run (iteration k6 env) tt)
  unfolding iteration
  Succeeds-short fits =
      rw (sent, answer_short fits, d.passes (delay_checks delayed) delayed-Passes)
        (delayed-Passes, tt)

  Succeeds-long : ltb 5000 ms ≡ true → ¬ Succeeds (run (iteration k6 env) tt)
  unfolding iteration
  Succeeds-long long =
      rw (sent, answer_long long)
        (check-fails k6 (delay_checks delay_error) (λ b. pure tt) _ (λ b. Extends-pure tt)
          refused-fails)

  -- For a delay that is a whole number below 2^53, an iteration of the latency script succeeds
  -- exactly if it is at most 5000: the application refuses to wait longer.
  pub latency_iteration-Succeeds_iff : Succeeds (run (iteration k6 env) tt) ↔ (ms ≤ 5000)
  latency_iteration-Succeeds_iff = elim (Bool-cases (ltb 5000 ms)) [
    | inl long ↦
        (λ h. absurd (Succeeds-long long h), λ le. absurd (omega (arith, ltb→lt 5000 ms long)))
    | inr fits ↦ (λ h. ground arith, λ le. Succeeds-short fits)
  ]
