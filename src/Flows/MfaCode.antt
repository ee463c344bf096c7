-- ===== src/Flows/MfaCode.antt =====
-- The MFA code: `expectedMfaCode` of engines/k6/target_apps_auth_session_mfa_flow.js sums UTF-16
-- units, `_expected_mfa_code` of target-apps/apps/auth_flow_api.py sums the bytes of UTF-8.
use Prim.Native.String.{[], ◌∷◌, ◌++◌}
use text.Mathlib.TextLemmas.{nil-append, cons-append}
use p_loadtesting.Prelude.{ℕ, ◌+◌, ◌*◌, ◌%◌, ◌<◌, code, String, ◌≡◌, refl, ap, List, arith}
use p_loadtesting.Apps.Auth as Server
use p_loadtesting.Apps.Auth.{sum_bytes}
use p_loadtesting.Js.Text.{utf8, utf16, decimal, pad_start}
use p_loadtesting.Scripts.AuthSessionMfa as Script
use p_loadtesting.Scripts.AuthSessionMfa.{sum_codes}

-- Every character is below U+0080.
abbrev pub IsAscii : String → Type 0
IsAscii [] = Unit
IsAscii (c ∷ s) = (code c < 128) × IsAscii s

append-IsAscii : (s t : String) → IsAscii s → IsAscii t → IsAscii (s ++ t)
append-IsAscii [] t _ k = rw nil-append k
append-IsAscii (c ∷ s) t (low, h) k = rw cons-append (low, append-IsAscii s t h k)

utf16-IsAscii : (s : String) → IsAscii s → utf16 s ≡ utf8 s
unfolding utf16 utf8
utf16-IsAscii [] _ = refl
utf16-IsAscii (c ∷ s) (low, h) = ground (arith, utf16-IsAscii s h)

sum_codes-sum_bytes : (total : ℕ) (cs : List ℕ) → sum_codes total cs ≡ total + sum_bytes cs
unfolding sum_codes sum_bytes
sum_codes-sum_bytes total List.[] = omega arith
sum_codes-sum_bytes total (List.◌∷◌ c cs) = omega (arith, sum_codes-sum_bytes (total + c) cs)

sums-IsAscii : (s : String) → IsAscii s → sum_codes 0 (utf16 s) ≡ sum_bytes (utf8 s)
sums-IsAscii s h = rw (utf16-IsAscii s h) (omega (arith, sum_codes-sum_bytes 0 (utf8 s)))

-- For a user name and a channel of ASCII characters, the script computes the code that the
-- application expects.
pub expected_mfa_code-IsAscii :
    (username channel : String)
    → IsAscii username
    → IsAscii channel
    → Script.expected_mfa_code username channel ≡ Server.expected_mfa_code username channel
unfolding Script.expected_mfa_code Server.expected_mfa_code
expected_mfa_code-IsAscii username channel h k =
    ap (λ total. pad_start 6 "0" (decimal ((total * 137) % 1000000)))
      (sums-IsAscii (username ++ "|" ++ channel) (
        append-IsAscii username ("|" ++ channel) h
          (append-IsAscii "|" channel (omega arith, tt) k)))
