-- ===== src/Scripts/PayloadArchive.antt =====
-- engines/k6/target_apps_payload_archive_flow.js
use Prim.Native.String.{◌++◌}
use p_loadtesting.Prelude.{String, true, some, [], ◌∷◌}
use p_loadtesting.Env.{Env, setting}
use p_loadtesting.Js.Number.{JsNumber}
use p_loadtesting.Js.Outcome.{returned, on_value}
use p_loadtesting.Js.Text.{utf16_length}
use p_loadtesting.Js.Value.{number, to_number, strict_equal}
use p_loadtesting.K6.{Host, M, pure, send, check, get_of, has_status, ◌>>=◌, ◌>>◌}
use p_loadtesting.Scripts.Payload.{
  base_url, header_includes, has_bytes, number_is, files_length, checksum_exists,
}
use p_loadtesting.Options.{Options, no_options}

abbrev pub pack_count : Env → String
pack_count env = setting env "PACK_COUNT" "4"

abbrev pub pack_kb_per_file : Env → String
pack_kb_per_file env = setting env "PACK_KB_PER_FILE" "12"

module _ {Num : Type 0} ⦃num : JsNumber Num⦄ where
  unfoldable pub options : Options Num
  options = record no_options {
    vus = some (num.of_ℕ 3);
    iterations = some (num.of_ℕ 4);
    thresholds =
        some
          (("http_req_failed", "rate==0" ∷ []) ∷ (("http_req_duration", "p(95)<3000" ∷ []) ∷ ([])));
  }

-- The query of the three requests.
abbrev pub pack_query : Env → String
pack_query env = "?count=" ++ pack_count env ++ "&kb_per_file=" ++ pack_kb_per_file env

module _ {Num World : Type 0} ⦃num : JsNumber Num⦄ (k6 : Host Num World) (env : Env) where
  unfoldable pub iteration : M Num World (Unit {0})
  unfolding has_bytes utf16_length
  iteration = do
    fixture_pack ←
        send k6 (record (get_of (base_url env ++ "/api/files/fixture-pack" ++ pack_query env)) {
          timeout = some "5s";
        })
    check k6 (
        ("fixture pack status is 200", has_status 200 fixture_pack)
        ∷ (
          "fixture pack count matches",
          number_is "count" (num.parse (pack_count env)) fixture_pack,
        )
        ∷ (
          "fixture pack files exist",
          files_length (λ v. strict_equal v (number (num.parse (pack_count env)))) fixture_pack,
        )
        ∷ [])
    archive ← send k6 (record (get_of (base_url env ++ "/api/files/archive" ++ pack_query env)) {
      binary = true;
      timeout = some "5s";
    })
    check k6 (
        ("archive status is 200", has_status 200 archive)
        ∷ ("archive content-type is zip", header_includes "Content-Type" "application/zip" archive)
        ∷ (
          "archive has bytes",
          returned (
              has_bytes
                (λ n. num.lt (num.mul (num.parse (pack_count env)) (num.of_ℕ 128)) (num.of_ℕ n))
                archive.body),
        )
        ∷ [])
    read_many ←
        send k6 (record (get_of (base_url env ++ "/api/files/read-many" ++ pack_query env)) {
          timeout = some "5s";
        })
    check k6 (
        ("read-many status is 200", has_status 200 read_many)
        ∷ ("read-many count matches", number_is "count" (num.parse (pack_count env)) read_many)
        ∷ (
          "read-many total bytes positive",
          on_value (read_many.json "total_bytes") (λ v. num.lt (num.of_ℕ 0) (to_number v)),
        )
        ∷ ("read-many checksum exists", checksum_exists read_many)
        ∷ [])
    pure tt
