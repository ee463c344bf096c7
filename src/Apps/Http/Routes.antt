-- ===== src/Apps/Http/Routes.antt =====
-- The part of FastAPI's routing that the target applications rely on: a path that starts with a
-- fixed text and ends in one segment, which is read as an integer (`{item_id}` with `item_id: int`).
use Prim.Native.String.{[], ◌∷◌, ◌++◌}
use p_loadtesting.Prelude.{
  ℕ, ◌+◌, ◌-◌, ◌*◌, String, ◌≡◌, refl, false, Option, none, some, arith, code, str_eq, eq_iff,
  if◌then◌else◌,
}
use p_loadtesting.Js.Text.{decimal, includes, strip_prefix, starts_with}
use p_loadtesting.Js.Text.Decimal.{decimal-ne-nil}
use p_loadtesting.Js.Text.Prefix.{strip_prefix-append}
use p_loadtesting.Js.Text.Reading.{read_from, read_from-decimal}

pub data ℤ : Type 0 where
  pos : ℕ → ℤ
  negsuc : ℕ → ℤ

-- `str(n)`
abbrev pub show_int : ℤ → String
show_int (pos n) = decimal n
show_int (negsuc n) = "-" ++ decimal (n + 1)

-- The integer that a segment is read as, `none` where it is none. The decimal digits of a whole
-- number are read as that number.
pub record ReadsPaths (path_int : String → Option ℤ) : Type 0 where
  pub path_int-decimal : (n : ℕ) → path_int (decimal n) ≡ some (pos n)

abbrev one_segment : String → Option String
one_segment s = if str_eq s "" then none else if includes s "/" then none else some s

-- The last segment of a path that starts with `prefix`, and has no other segment behind it.
unfoldable pub segment_of : String → String → Option String
segment_of prefix path = elim (strip_prefix prefix path) [ none ↦ none | some s ↦ one_segment s ]

read_from-slash : (acc n : ℕ) (s : String) → read_from acc s ≡ some n → includes s "/" ≡ false
unfolding read_from includes starts_with
read_from-slash acc n [] e = refl
read_from-slash acc n (c ∷ s) e = ground (arith, read_from-slash (acc * 10 + (code c - 48)) n s)

pub segment_of-decimal :
    (prefix : String) (n : ℕ) → segment_of prefix (prefix ++ decimal n) ≡ some (decimal n)
unfolding segment_of
segment_of-decimal prefix n =
    let slash = read_from-slash 0 n (decimal n) (read_from-decimal n) in
    ground (arith, strip_prefix-append prefix (decimal n), eq_iff (decimal n) "", decimal-ne-nil n)
