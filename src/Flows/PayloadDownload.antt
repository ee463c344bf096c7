-- ===== src/Flows/PayloadDownload.antt =====
-- engines/k6/target_apps_payload_download.js on k6, which hands a script the header names in the
-- canonical form of Go's net/http: a letter is upper case at the start and behind a dash, and lower
-- case elsewhere.
use Prim.Native.String.{[], ◌∷◌, ◌++◌}
use p_loadtesting.Prelude.{
  ◌≢◌, inl, inr, code, String, ◌≡◌, refl, Bool, true, false, ◌&&◌, not, some, none, List, All,
  arith, leb, ◌==◌, lookup, eq_iff, if◌then◌else◌,
}
use p_loadtesting.Env.{Env}
use p_loadtesting.Flows.{Succeeds}
use p_loadtesting.Flows.Extends.{Extends-pure, check-fails}
use p_loadtesting.Js.Number.{JsNumber}
use p_loadtesting.Js.Outcome.{returned, Outcome-cases}
use p_loadtesting.K6.{Host, Request, Response, Checks, Passes, has_status, get_of, pure, run}
use p_loadtesting.Scripts.Payload.{base_url, header_includes}
use p_loadtesting.Scripts.PayloadDownload.{
  header_is, has_length, expected_bytes, iteration, payload_kb,
}

-- `start` is true at the start and behind a dash.
unfoldable pub is_canonical_from : Bool → String → Bool
is_canonical_from start [] = true
is_canonical_from start (c ∷ s) =
    let n = code c in
    let rest = is_canonical_from (n == 45) s in
    if start then not (leb 97 n && leb n 122) && rest else not (leb 65 n && leb n 90) && rest

unfoldable pub is_canonical : String → Bool
unfolding is_canonical_from
is_canonical name = is_canonical_from true name

abbrev pub IsCanonical : List (String × String) → Type 0
IsCanonical headers = All (λ h. is_canonical h.0 ≡ true) headers

-- Every response has header names in canonical form.
abbrev pub GivesCanonical : {Num World : Type 0} → Host Num World → Type 0
GivesCanonical {Num} {World} k6 =
    (req : Request Num) (w w' : World) (r : Response Num)
    → k6.send req w ≡ (returned r, w')
    → IsCanonical r.headers

lookup-IsCanonical :
    (name : String) (headers : List (String × String))
    → is_canonical name ≡ false
    → IsCanonical headers
    → lookup name headers ≡ none
lookup-IsCanonical name List.[] odd _ = refl
lookup-IsCanonical name (List.◌∷◌ (key, value) headers) odd (canonical, h) =
    ground (arith, eq_iff key name, lookup-IsCanonical name headers odd h)

header_is-IsCanonical :
    {Num : Type 0} (value : String) (r : Response Num)
    → IsCanonical r.headers
    → header_is "X-Payload-KB" value r ≡ false
unfolding header_is is_canonical
header_is-IsCanonical value r h = rw (header_is, lookup-IsCanonical "X-Payload-KB" r.headers refl h)

module _ {Num World : Type 0} ⦃num : JsNumber Num⦄ (k6 : Host Num World) (env : Env) where
  -- the checks of the script on a response
  abbrev download_checks : Response Num → Checks
  download_checks r =
      List.◌∷◌ ("payload download status is 200", has_status 200 r)
        (List.◌∷◌
          ("payload download content type is text", header_includes "Content-Type" "text/plain" r)
          (List.◌∷◌
            (
              "payload download kb header matches",
              returned (header_is "X-Payload-KB" (payload_kb env) r),
            )
            (List.◌∷◌
              (
                "payload download size matches",
                returned (has_length {Num = Num} (expected_bytes env) r.body),
              )
              List.[])))

  false-ne-true : (b : Bool) → b ≡ false → returned b ≢ returned true
  false-ne-true b e h = ground arith

  download_checks-bad : (r : Response Num) → IsCanonical r.headers → ¬ Passes (download_checks r)
  download_checks-bad r canonical (_, (_, (header, _))) =
      false-ne-true (header_is "X-Payload-KB" (payload_kb env) r)
        (header_is-IsCanonical (payload_kb env) r canonical) header

  abbrev download_request : Request Num
  download_request = record (get_of (base_url env ++ "/api/download?kb=" ++ payload_kb env)) {
    timeout = some "5s";
  }

  -- Where every response has canonical header names, an iteration never succeeds: the check of
  -- `X-Payload-KB` looks up a name that no response has.
  pub download_iteration-fails :
      GivesCanonical k6 → (w : World) → ¬ Succeeds (run (iteration k6 env) w)
  unfolding iteration
  download_iteration-fails canonical w = elim (Outcome-cases (k6.send download_request w).0) [
    | inl e ↦ rw e (λ none. none)
    | inr (r, e) ↦ rw e (
        check-fails k6 (download_checks r) (λ b. pure tt) _ (λ b. Extends-pure tt)
          (download_checks-bad r (
            canonical download_request w (k6.send download_request w).1 r
              (λ i. (e i, (k6.send download_request w).1)))))
  ]
