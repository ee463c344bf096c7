-- ===== src/Scripts/Payload.antt =====
-- The tests that the scripts for the payload target share: target_apps_payload_download.js,
-- target_apps_payload_file_flow.js, target_apps_payload_archive_flow.js and
-- target_apps_payload_tar_selective_flow.js of engines/k6.
use p_loadtesting.Prelude.{ℕ, String, Bool, false, ◌==◌, if◌then◌else◌, lookup, length}
use p_loadtesting.Env.{Env, setting, or_text}
use p_loadtesting.Js.Number.{JsNumber}
use p_loadtesting.Js.Outcome.{Outcome, returned, on_value, and_then, ◌>>=◌}
use p_loadtesting.Js.Text.{includes, utf16_length}
use p_loadtesting.Js.Value.{Value, text, is_array, to_text, to_number, to_boolean, length_of}
use p_loadtesting.K6.{Response, Body, bytes}

abbrev pub base_url : Env → String
base_url env = setting env "TARGET_URL" "http://127.0.0.1:18084"

-- `String(r.headers[name] || '').includes(piece)`
abbrev pub header_includes : {Num : Type 0} → String → String → Response Num → Outcome Bool
header_includes name piece r = returned (includes (or_text (lookup name r.headers) "") piece)

-- `r.body && test(r.body.byteLength)`: only a binary body has a `byteLength`.
unfoldable pub has_bytes : (ℕ → Bool) → Body → Bool
has_bytes test (bytes bs) = test (length bs)
has_bytes test _ = false

module _ {Num : Type 0} ⦃num : JsNumber Num⦄ where
  -- `Number(r.json(key)) === x`
  abbrev pub number_is : String → Num → Response Num → Outcome Bool
  number_is key x r = on_value (r.json key) (λ v. num.eq (to_number v) x)

  -- `Array.isArray(r.json('files')) && test(r.json('files').length)`
  abbrev pub files_length : (Value Num → Bool) → Response Num → Outcome Bool
  files_length test r =
      and_then (on_value (r.json "files") is_array)
        (do files ← r.json "files"; on_value (length_of files) test)

  -- `String(r.json('combined_sha256_prefix') || '').length === 16`
  abbrev pub checksum_exists : Response Num → Outcome Bool
  checksum_exists r =
      on_value (r.json "combined_sha256_prefix")
        (λ v. utf16_length (to_text (if to_boolean v then v else text "")) == 16)
