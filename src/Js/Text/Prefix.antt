-- ===== src/Js/Text/Prefix.antt =====
-- The law of `strip_prefix`.
use Prim.Native.String.{[], ◌∷◌, ◌++◌}
use text.Mathlib.TextLemmas.{nil-append, cons-append}
use p_loadtesting.Prelude.{String, ◌≡◌, ap, false, none, some, arith, str_eq, eq_iff}
use p_loadtesting.Js.Text.{strip_prefix}

-- What stands behind a prefix is found again.
pub strip_prefix-append : (p s : String) → strip_prefix p (p ++ s) ≡ some s
unfolding strip_prefix
strip_prefix-append [] s = rw nil-append
strip_prefix-append (c ∷ p) s =
    rw (cons-append, strip_prefix) (ground (arith, strip_prefix-append p s))

-- A text with a prefix is no text without it.
pub str_eq-prefix : (p s t : String) → strip_prefix p t ≡ none → str_eq (p ++ s) t ≡ false
str_eq-prefix p s t e = ground (arith, eq_iff (p ++ s) t, strip_prefix-append p s, same)
  where
    same : p ++ s ≡ t → strip_prefix p (p ++ s) ≡ strip_prefix p t
    same f = ap (strip_prefix p) f
