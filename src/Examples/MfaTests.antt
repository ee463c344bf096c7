-- ===== src/Examples/MfaTests.antt =====
-- The MFA codes of target_apps_auth_session_mfa_flow.js and auth_flow_api.py at concrete names.
use p_loadtesting.Prelude.{◌≡◌, refl, false, arith, str_eq}
use p_loadtesting.Apps.Auth as Server
use p_loadtesting.Flows.MfaCode.{expected_mfa_code-IsAscii, IsAscii}
use p_loadtesting.Scripts.AuthSessionMfa as Script

alice-IsAscii : IsAscii "alice"
alice-IsAscii = (omega arith, (omega arith, (omega arith, (omega arith, (omega arith, tt)))))

sms-IsAscii : IsAscii "sms"
sms-IsAscii = (omega arith, (omega arith, (omega arith, tt)))

expected_mfa_code-IsAscii_example :
    Script.expected_mfa_code "alice" "sms" ≡ Server.expected_mfa_code "alice" "sms"
expected_mfa_code-IsAscii_example =
    expected_mfa_code-IsAscii "alice" "sms" alice-IsAscii sms-IsAscii

alice_code : Script.expected_mfa_code "alice" "sms" ≡ "133301"
unfolding Script.expected_mfa_code
alice_code = refl

-- A name beyond ASCII: the two codes differ.
zoe_codes :
    str_eq (Script.expected_mfa_code "Zoë" "sms") (Server.expected_mfa_code "Zoë" "sms") ≡ false
unfolding Script.expected_mfa_code Server.expected_mfa_code
zoe_codes = refl
