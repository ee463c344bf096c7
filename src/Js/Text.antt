-- ===== src/Js/Text.antt =====
-- The texts of JavaScript. A text is a sequence of Unicode characters here, so one with an unpaired
-- surrogate is left out; lengths and character codes are those of its UTF-16 units.
pub mod Decimal
pub mod Reading
pub mod Uri
pub mod Prefix
use Prim.Native.String.{[], ◌∷◌, char_at}
use p_loadtesting.Prelude.{
  ℕ, zero, suc, ◌+◌, ◌-◌, ◌/◌, ◌%◌, Char, code, String, Bool, true, false, not, ◌&&◌, ◌||◌, Option,
  none, some, List, length, ltb, ◌==◌, if◌then◌else◌,
}

-- `text.startsWith(piece)`
unfoldable pub starts_with : String → String → Bool
starts_with s [] = true
starts_with [] (d ∷ t) = false
starts_with (c ∷ s) (d ∷ t) = (code c == code d) && starts_with s t

-- The rest of a text behind a prefix.
unfoldable pub strip_prefix : String → String → Option String
strip_prefix [] s = some s
strip_prefix (c ∷ p) [] = none
strip_prefix (c ∷ p) (d ∷ s) =
    let rest = strip_prefix p s in if code c == code d then rest else none

-- `text.includes(piece)`
unfoldable pub includes : String → String → Bool
unfolding starts_with
includes [] t = starts_with [] t
includes (c ∷ s) t = starts_with (c ∷ s) t || includes s t

-- HTML reads the text between the quotes of an attribute as it is: none of `"`, `&`, `<` and `>`,
-- and no control character.
unfoldable pub is_html_plain : String → Bool
is_html_plain [] = true
is_html_plain (c ∷ s) =
    let n = code c in
    not (ltb n 32 || (n == 34 || (n == 38 || (n == 60 || n == 62)))) && is_html_plain s

-- The UTF-16 units of a text: two for a character above U+FFFF.
unfoldable pub utf16 : String → List ℕ
utf16 [] = List.[]
utf16 (c ∷ s) =
    let n = code c in
    let rest = utf16 s in
    if ltb n 65536
    then List.◌∷◌ n rest
    else List.◌∷◌ (55296 + (n - 65536) / 1024) (List.◌∷◌ (56320 + (n - 65536) % 1024) rest)

-- The bytes of a text in UTF-8.
unfoldable pub utf8 : String → List ℕ
utf8 [] = List.[]
utf8 (c ∷ s) =
    let n = code c in
    let rest = utf8 s in
    if ltb n 128
    then List.◌∷◌ n rest
    else if ltb n 2048
    then List.◌∷◌ (192 + n / 64) (List.◌∷◌ (128 + n % 64) rest)
    else if ltb n 65536
    then List.◌∷◌ (224 + n / 4096) (List.◌∷◌ (128 + n / 64 % 64) (List.◌∷◌ (128 + n % 64) rest))
    else List.◌∷◌ (240 + n / 262144) (
        List.◌∷◌ (128 + n / 4096 % 64)
          (List.◌∷◌ (128 + n / 64 % 64) (List.◌∷◌ (128 + n % 64) rest)))

-- `text.length`
unfoldable pub utf16_length : String → ℕ
unfolding utf16
utf16_length s = length (utf16 s)

digit : ℕ → Char
digit n = char_at "0123456789" n

decimal_from : ℕ → ℕ → String → String
unfolding digit
decimal_from zero n acc = acc
decimal_from (suc fuel) n acc =
    let more = decimal_from fuel (n / 10) (digit (n % 10) ∷ acc) in
    if ltb n 10 then digit n ∷ acc else more

-- The decimal digits of a whole number; a number has fewer digits than the fuel.
unfoldable pub decimal : ℕ → String
unfolding decimal_from
decimal n = decimal_from (suc n) n []

repeated : ℕ → Char → String → String
repeated zero fill s = s
repeated (suc n) fill s = fill ∷ repeated n fill s

-- `text.padStart(width, fill)` for a fill of one unit
unfoldable pub pad_start : ℕ → Char → String → String
unfolding repeated utf16_length
pad_start width fill s = repeated (width - utf16_length s) fill s
