-- ===== src/Examples/Settings.antt =====
-- Environments and other concrete inputs of the examples.
use p_loadtesting.Prelude.{ℕ, String, refl, ap, Option, none, some, List, lookup}
use p_loadtesting.Apps.Http.Routes.{ℤ, pos, ReadsPaths}
use p_loadtesting.Env.{Env}
use p_loadtesting.Flows.{ReadsIntegers, IsDigest}
use p_loadtesting.Js.Naturals.{naturals}
use p_loadtesting.Js.Text.Reading.{read_from, read_from-decimal}
use p_loadtesting.Js.Value.{Value, number}

-- The environment that a list of variables gives.
abbrev pub env_of : List (String × String) → Env
env_of settings name = lookup name settings

-- Only numbers are taken as integers.
abbrev pub as_int : Value (Option ℕ) → Option ℕ
as_int (number x) = x
as_int _ = none

pub as_int-ReadsIntegers : ReadsIntegers naturals as_int
as_int-ReadsIntegers = record { as_int-of_ℕ = λ n h. refl }

abbrev pub digest : String → String
digest s = "0123456789abcdef0123456789abcdef0123456789abcdef0123456789abcdef"

pub digest-IsDigest : IsDigest digest
digest-IsDigest s = refl

abbrev natural : Option ℕ → Option ℤ
natural none = none
natural (some n) = some (pos n)

abbrev pub path_int : String → Option ℤ
path_int s = natural (read_from 0 s)

pub path_int-ReadsPaths : ReadsPaths path_int
path_int-ReadsPaths = record { path_int-decimal = λ n. ap natural (read_from-decimal n) }
