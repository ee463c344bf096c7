-- ===== src/Js/Text/Uri.antt =====
-- `encodeURIComponent`: the bytes of UTF-8 as `%XX`, except for the letters, the digits and
-- `-_.!~*'()`.
use Prim.Native.String.{[], ◌∷◌, ◌++◌, char_at}
use p_loadtesting.Prelude.{
  ℕ, ◌/◌, ◌%◌, Char, code, String, Bool, false, ◌&&◌, ◌||◌, List, leb, ◌==◌, if◌then◌else◌,
}
use p_loadtesting.Js.Text.{utf8}

abbrev one_of : String → ℕ → Bool
one_of [] n = false
one_of (c ∷ s) n = (code c == n) || one_of s n

unfoldable pub is_unreserved : Char → Bool
is_unreserved c =
    let n = code c in
    (leb 65 n && leb n 90)
    || ((leb 97 n && leb n 122) || ((leb 48 n && leb n 57) || one_of "-_.!~*'()" n))

abbrev hex_digit : ℕ → Char
hex_digit n = char_at "0123456789ABCDEF" n

-- `%XX` for every byte
unfoldable pub percent_bytes : List ℕ → String
percent_bytes List.[] = ""
percent_bytes (List.◌∷◌ b bs) =
    let rest = percent_bytes bs in "%" ∷ (hex_digit (b / 16) ∷ (hex_digit (b % 16) ∷ rest))

unfoldable pub encode_uri_component : String → String
unfolding is_unreserved percent_bytes utf8
encode_uri_component [] = ""
encode_uri_component (c ∷ s) =
    let rest = encode_uri_component s in
    if is_unreserved c then c ∷ rest else percent_bytes (utf8 (c ∷ [])) ++ rest
