-- ===== src/Scripts/PayloadFile.antt =====
-- engines/k6/target_apps_payload_file_flow.js
use Prim.Native.String.{◌++◌}
use p_loadtesting.Prelude.{
  String, Bool, true, false, Option, none, some, [], ◌∷◌, str_eq, if◌then◌else◌,
}
use p_loadtesting.Env.{Env, setting}
use p_loadtesting.Js.Number.{JsNumber}
use p_loadtesting.Js.Outcome.{returned}
use p_loadtesting.Js.Value.{number, strict_equal}
use p_loadtesting.K6.{
  Host, M, Response, pure, send, check, get_of, post_of, raw, has_status, ◌>>=◌, ◌>>◌,
}
use p_loadtesting.Scripts.Payload.{base_url, header_includes, has_bytes, number_is, files_length}
use p_loadtesting.Options.{Options, no_options}

abbrev pub file_endpoint_path : Env → String
file_endpoint_path env = setting env "FILE_ENDPOINT_PATH" "/api/files/fixture-1"

abbrev pub file_kb : Env → String
file_kb env = setting env "FILE_KB" "32"

abbrev pub file_disposition : Env → String
file_disposition env = setting env "FILE_DISPOSITION" "attachment"

abbrev is_one : Option String → Bool
is_one none = false
is_one (some s) = str_eq s "1"

abbrev pub file_upload_mode : Env → Bool
file_upload_mode env = is_one (env "FILE_UPLOAD_MODE")

module _ {Num : Type 0} ⦃num : JsNumber Num⦄ where
  unfoldable pub options : Options Num
  options = record no_options {
    vus = some (num.of_ℕ 3);
    iterations = some (num.of_ℕ 4);
    thresholds =
        some
          (("http_req_failed", "rate==0" ∷ []) ∷ (("http_req_duration", "p(95)<3000" ∷ []) ∷ ([])));
  }

module _ {Num : Type 0} ⦃num : JsNumber Num⦄ where
  -- `Number(FILE_KB) * 1024`
  abbrev pub file_bytes : Env → Num
  file_bytes env = num.mul (num.parse (file_kb env)) (num.of_ℕ 1024)

module _ {Num World : Type 0} ⦃num : JsNumber Num⦄ (k6 : Host Num World) (env : Env) where
  -- `if (FILE_UPLOAD_MODE) { … }`
  unfoldable pub upload : Response Num → M Num World (Unit {0})
  upload download =
      if file_upload_mode env
      then (do
        upload ←
            send k6
              (record (post_of (base_url env ++ "/api/files/upload?filename=roundtrip.bin")
                (raw download.body) (("Content-Type", "application/octet-stream") ∷ [])) {
                  timeout = some "5s";
                })
        check k6 (
            ("file upload status is 200", has_status 200 upload)
            ∷ ("file upload bytes echoed", number_is "received_bytes" (file_bytes env) upload)
            ∷ [])
        pure tt)
      else pure tt

  unfoldable pub iteration : M Num World (Unit {0})
  unfolding upload has_bytes
  iteration = do
    manifest ←
        send k6
          (record (get_of
            (base_url env ++ "/api/files/manifest?count=3&kb_per_file=" ++ file_kb env)) {
              timeout = some "5s";
            })
    check k6 (
        ("file manifest status is 200", has_status 200 manifest)
        ∷ (
          "file manifest has files",
          files_length (λ v. strict_equal v (number (num.of_ℕ 3))) manifest,
        )
        ∷ [])
    download ←
        send k6
          (record (get_of (
            base_url env
            ++ file_endpoint_path env
            ++ "?kb="
            ++ file_kb env
            ++ "&disposition="
            ++ file_disposition env)) { binary = true; timeout = some "5s" })
    check k6 (
        ("file download status is 200", has_status 200 download)
        ∷ (
          "file download content-disposition exists",
          header_includes "Content-Disposition" (file_disposition env) download,
        )
        ∷ (
          "file download size matches",
          returned (has_bytes (λ n. num.eq (num.of_ℕ n) (file_bytes env)) download.body),
        )
        ∷ [])
    upload download
