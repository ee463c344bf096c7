-- ===== src/Dashboard/Texts.antt =====
-- Texts in engines/jmeter/html-report/content/js/dashboard-commons.js: `split`, `unquote` and `>`.
use Prim.Native.String.{[], ◌∷◌, ◌++◌, slice, len}
use p_loadtesting.Prelude.{
  ℕ, ◌-◌, code, String, Bool, true, false, ◌&&◌, List, ◌==◌, ltb, str_eq, if◌then◌else◌,
}
use p_loadtesting.Js.Text.{utf16}

-- `key.split('.')`, where `piece` is the piece read so far
unfoldable pub split_dots : (piece : String) → String → List String
split_dots piece [] = List.◌∷◌ piece List.[]
split_dots piece (c ∷ s) =
    let next = split_dots "" s in
    let more = split_dots (piece ++ (c ∷ "")) s in
    if code c == 46 then List.◌∷◌ piece next else more

-- `quoteChar || '"'`, and the text without its quotes
unfoldable pub unquote : (str quote_char : String) → String
unquote str quote_char =
    let quote = if str_eq quote_char "" then "\"" else quote_char in
    if ltb 0 (len str)
      && (str_eq (slice str 0 1) quote && str_eq (slice str (len str - 1) (len str)) quote)
    then slice str 1 (len str - 1)
    else str

-- `a > b` on texts: by their UTF-16 units
units_gt : List ℕ → List ℕ → Bool
units_gt List.[] vs = false
units_gt (List.◌∷◌ u us) List.[] = true
units_gt (List.◌∷◌ u us) (List.◌∷◌ v vs) =
    let later = units_gt us vs in if ltb v u then true else if ltb u v then false else later

unfoldable pub text_gt : String → String → Bool
unfolding units_gt utf16
text_gt s t = units_gt (utf16 s) (utf16 t)
