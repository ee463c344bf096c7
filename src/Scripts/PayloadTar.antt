-- ===== src/Scripts/PayloadTar.antt =====
-- engines/k6/target_apps_payload_tar_selective_flow.js
use Prim.Native.String.{◌++◌}
use p_loadtesting.Prelude.{String, true, some, List, [], ◌∷◌, length, take}
use p_loadtesting.Env.{Env, setting}
use p_loadtesting.Js.Number.{JsNumber}
use p_loadtesting.Js.Outcome.{Outcome, returned, threw, on_value}
use p_loadtesting.Js.Text.{utf16_length}
use p_loadtesting.Js.Text.Uri.{encode_uri_component}
use p_loadtesting.Js.Value.{
  Value, number, object, array, fields, elements, values, property, to_text, join_texts, to_number,
}
use p_loadtesting.K6.{
  Host, M, pure, lift, send, check, get_of, post_of, json_of, json_content, has_status, ◌>>=◌, ◌>>◌,
}
use p_loadtesting.Scripts.Payload.{
  base_url, header_includes, has_bytes, number_is, files_length, checksum_exists,
}
use p_loadtesting.Options.{Options, no_options}

module _ {Num : Type 0} ⦃num : JsNumber Num⦄ where
  abbrev pub pack_count : Env → Num
  pack_count env = num.parse (setting env "PACK_COUNT" "5")

  abbrev pub pack_kb_per_file : Env → Num
  pack_kb_per_file env = num.parse (setting env "PACK_KB_PER_FILE" "10")

  abbrev pub selective_count : Env → Num
  selective_count env = num.parse (setting env "SELECTIVE_COUNT" "3")

module _ {Num : Type 0} ⦃num : JsNumber Num⦄ where
  unfoldable pub options : Options Num
  options = record no_options {
    vus = some (num.of_ℕ 2);
    iterations = some (num.of_ℕ 4);
    thresholds =
        some
          (("http_req_failed", "rate==0" ∷ []) ∷ (("http_req_duration", "p(95)<3000" ∷ []) ∷ ([])));
  }

module _ {Num : Type 0} where
  -- `files.map((row) => row.file_id)`
  unfoldable pub file_ids : List (Value Num) → Outcome (List (Value Num))
  unfolding property
  file_ids [] = returned []
  file_ids (row ∷ rows) = elim (property "file_id" row) [
    | threw ↦ threw
    | returned id ↦ on_value (file_ids rows) (λ ids. id ∷ ids)
  ]

module _ {Num : Type 0} ⦃num : JsNumber Num⦄ where
  -- `files.slice(0, count).map((row) => row.file_id)`; what is no array has no `map`.
  unfoldable pub selected_ids : Num → Value Num → Outcome (List (Value Num))
  unfolding file_ids
  selected_ids count (array vs) =
      let files = elements vs in file_ids (take (num.slice_end count (length files)) files)
  selected_ids count _ = threw

  -- `ids.map((fileId) => `file_ids=${encodeURIComponent(fileId)}`).join('&')`
  unfoldable pub tar_query : List (Value Num) → String
  unfolding encode_uri_component to_text join_texts
  tar_query [] = ""
  tar_query (id ∷ []) = "file_ids=" ++ encode_uri_component (to_text id)
  tar_query (id ∷ ids) = "file_ids=" ++ encode_uri_component (to_text id) ++ "&" ++ tar_query ids

  abbrev pub fetch_body : Env → List (Value Num) → Value Num
  fetch_body env ids = object (
      fields
        (("file_ids", array (values ids)) ∷ ("kb_per_file", number (pack_kb_per_file env)) ∷ []))

module _ {Num World : Type 0} ⦃num : JsNumber Num⦄ (k6 : Host Num World) (env : Env) where
  -- the last request, for the selected files
  unfoldable pub fetch_tar : List (Value Num) → M Num World (Unit {0})
  unfolding tar_query has_bytes
  fetch_tar ids = do
    tar_package ←
        send k6
          (record (get_of (
            base_url env
            ++ "/api/files/tar-package?"
            ++ tar_query ids
            ++ "&kb_per_file="
            ++ num.show (pack_kb_per_file env))) { binary = true; timeout = some "5s" })
    check k6 (
        ("tar package status is 200", has_status 200 tar_package)
        ∷ (
          "tar package content-type is x-tar",
          header_includes "Content-Type" "application/x-tar" tar_package,
        )
        ∷ (
          "tar package has bytes",
          returned (
              has_bytes (λ n. num.lt (num.mul (selective_count env) (num.of_ℕ 256)) (num.of_ℕ n))
                tar_package.body),
        )
        ∷ [])
    pure tt

  unfoldable pub iteration : M Num World (Unit {0})
  unfolding selected_ids fetch_tar utf16_length
  iteration = do
    manifest ←
        send k6
          (record (get_of (
            base_url env
            ++ "/api/files/manifest?count="
            ++ num.show (pack_count env)
            ++ "&kb_per_file="
            ++ num.show (pack_kb_per_file env))) { timeout = some "5s" })
    check k6 (
        ("tar selective manifest status is 200", has_status 200 manifest)
        ∷ (
          "tar selective manifest has enough files",
          files_length (λ v. num.le (selective_count env) (to_number v)) manifest,
        )
        ∷ [])
    files ← lift (manifest.json "files")
    ids ← lift (selected_ids (selective_count env) files)
    selective_fetch ←
        send k6
          (record (post_of (base_url env ++ "/api/files/selective-fetch")
            (json_of (fetch_body env ids)) json_content) { timeout = some "5s" })
    check k6 (
        ("selective fetch status is 200", has_status 200 selective_fetch)
        ∷ (
          "selective fetch count matches",
          number_is "selected_count" (selective_count env) selective_fetch,
        )
        ∷ ("selective fetch checksum exists", checksum_exists selective_fetch)
        ∷ [])
    fetch_tar ids
