-- ===== src/Scripts/PayloadDownload.antt =====
-- engines/k6/target_apps_payload_download.js
use Prim.Native.String.{◌++◌}
use p_loadtesting.Prelude.{String, Bool, false, not, ◌&&◌, none, some, [], ◌∷◌, str_eq, lookup}
use p_loadtesting.Env.{Env, setting}
use p_loadtesting.Js.Number.{JsNumber}
use p_loadtesting.Js.Outcome.{returned}
use p_loadtesting.Js.Text.{utf16_length}
use p_loadtesting.K6.{
  Host, M, Response, Body, characters, pure, send, check, get_of, has_status, ◌>>=◌, ◌>>◌,
}
use p_loadtesting.Scripts.Payload.{base_url, header_includes}
use p_loadtesting.Options.{Options}
use p_loadtesting.Execution.{Defaults, no_defaults, execution_options}

abbrev pub payload_kb : Env → String
payload_kb env = setting env "PAYLOAD_KB" "32"

module _ {Num : Type 0} ⦃num : JsNumber Num⦄ where
  abbrev pub defaults : Defaults Num
  defaults = record no_defaults {
    vus = some (num.of_ℕ 2);
    duration_seconds = some (num.of_ℕ 10);
    iterations = some (num.of_ℕ 4);
    thresholds =
        some
          (("http_req_failed", "rate==0" ∷ []) ∷ (("http_req_duration", "p(95)<2000" ∷ []) ∷ ([])));
  }

  unfoldable pub options : Env → Options Num
  options env = execution_options env defaults

-- `r.headers[name] === value`
unfoldable pub header_is : {Num : Type 0} → String → String → Response Num → Bool
header_is name value r = elim (lookup name r.headers) [
  | none ↦ false
  | some found ↦ str_eq found value
]

module _ {Num : Type 0} ⦃num : JsNumber Num⦄ where
  -- `r.body && r.body.length === expectedBytes`: a binary body has no `length`.
  unfoldable pub has_length : Num → Body → Bool
  unfolding utf16_length
  has_length x (characters s) = not (str_eq s "") && num.eq (num.of_ℕ (utf16_length s)) x
  has_length x _ = false

  abbrev pub expected_bytes : Env → Num
  expected_bytes env = num.mul (num.parse (payload_kb env)) (num.of_ℕ 1024)

module _ {Num World : Type 0} ⦃num : JsNumber Num⦄ (k6 : Host Num World) (env : Env) where
  unfoldable pub iteration : M Num World (Unit {0})
  unfolding header_is has_length
  iteration = do
    response ← send k6 (record (get_of (base_url env ++ "/api/download?kb=" ++ payload_kb env)) {
      timeout = some "5s";
    })
    check k6 (
        ("payload download status is 200", has_status 200 response)
        ∷ (
          "payload download content type is text",
          header_includes "Content-Type" "text/plain" response,
        )
        ∷ (
          "payload download kb header matches",
          returned (header_is "X-Payload-KB" (payload_kb env) response),
        )
        ∷ (
          "payload download size matches",
          returned (has_length {Num = Num} (expected_bytes env) response.body),
        )
        ∷ [])
    pure tt
