-- ===== src/Apps/Auth.antt =====
-- target-apps/apps/auth_flow_api.py, lines 15 to 125: access, refresh and session tokens with a
-- number of uses, MFA challenges and orders. `hash` is the hex digest of hashlib.sha256.
pub mod Requests
pub mod Handlers
pub mod Serve
pub mod Laws
pub mod Served
pub mod Full
use Prim.Native.String.{◌++◌}
use p_loadtesting.Prelude.{
  ℕ, ◌+◌, ◌-◌, ◌*◌, ◌%◌, String, Bool, true, false, Option, none, some, List, [], ◌∷◌, leb, length,
  lookup, insert, str_eq, if◌then◌else◌,
}
use p_loadtesting.Js.Text.{strip_prefix, utf8, decimal, pad_start}

pub record Token : Type 0 where
  pub username : String
  pub uses_left : ℕ
  pub revoked : Bool

pub record Challenge : Type 0 where
  pub username : String
  pub channel : String
  pub expected_code : String
  pub used : Bool

pub record Order : Type 0 where
  pub order_id : ℕ
  pub username : String
  pub sku : String
  pub quantity : ℕ

pub record State : Type 0 where
  pub access_tokens : List (String × Token)
  pub refresh_tokens : List (String × Token)
  pub sessions : List (String × Token)
  pub mfa_challenges : List (String × Challenge)
  pub orders : List (ℕ × Order)
  pub order_counter : ℕ
  pub token_counter : ℕ

abbrev pub init : State
init = record {
  access_tokens = [];
  refresh_tokens = [];
  sessions = [];
  mfa_challenges = [];
  orders = [];
  order_counter = 1;
  token_counter = 1;
}

abbrev pub fresh_token : String → ℕ → Token
fresh_token username uses_left = record {
  username = username;
  uses_left = uses_left;
  revoked = false;
}

-- A refusal with its detail (`raise HTTPException(status_code=401, …)`), or what the check gives.
pub data Access {ℓ} (A : Type ℓ) : Type ℓ where
  denied : String → Access A
  granted : A → Access A

-- The sum of the bytes of a text.
unfoldable pub sum_bytes : List ℕ → ℕ
sum_bytes [] = 0
sum_bytes (b ∷ bs) = b + sum_bytes bs

unfoldable pub expected_mfa_code : (username channel : String) → String
unfolding sum_bytes utf8 decimal pad_start
expected_mfa_code username channel =
    pad_start 6 "0" (decimal ((sum_bytes (utf8 (username ++ "|" ++ channel)) * 137) % 1000000))

module _ (hash : String → String) where
  abbrev pub token_of : (kind username : String) → ℕ → String
  token_of kind username n = hash (kind ++ "|" ++ username ++ "|" ++ decimal n)

  unfoldable pub issue_access_token : String → ℕ → State → String × State
  issue_access_token username uses_left s =
      let token = token_of "demo-access" username s.token_counter in
      (
        token,
        record s {
          access_tokens = insert token (fresh_token username uses_left) s.access_tokens;
          token_counter = s.token_counter + 1;
        },
      )

  unfoldable pub issue_refresh_token : String → ℕ → State → String × State
  issue_refresh_token username uses_left s =
      let token = token_of "demo-refresh" username s.token_counter in
      (
        token,
        record s {
          refresh_tokens = insert token (fresh_token username uses_left) s.refresh_tokens;
          token_counter = s.token_counter + 1;
        },
      )

  unfoldable pub issue_session : String → ℕ → State → String × State
  issue_session username uses_left s =
      let session_id = token_of "demo-session" username s.token_counter in
      (
        session_id,
        record s {
          sessions = insert session_id (fresh_token username uses_left) s.sessions;
          token_counter = s.token_counter + 1;
        },
      )

  -- `none` is the refusal with 422 of more than MAX_ACTIVE_MFA_CHALLENGES challenges.
  unfoldable pub issue_mfa_challenge : (username channel : String) → State → Option (String × State)
  issue_mfa_challenge username channel s =
      if leb 20 (length s.mfa_challenges)
      then none
      else some (
          let challenge_id = token_of "demo-mfa" (username ++ "|" ++ channel) s.token_counter in
          (
            challenge_id,
            record s {
              mfa_challenges =
                  insert challenge_id
                    (record {
                      username = username;
                      channel = channel;
                      expected_code = expected_mfa_code username channel;
                      used = false;
                    })
                    s.mfa_challenges;
              token_counter = s.token_counter + 1;
            },
          ))

-- The token of an Authorization header: `authorization.split(" ", 1)[1]` behind "Bearer ".
unfoldable pub bearer_token : Option String → Option String
bearer_token none = none
bearer_token (some authorization) = strip_prefix "Bearer " authorization

-- The tests of `_require_user` and `_require_session` on a token that is in its table.
unfoldable pub use_token : (kind : String) → Token → Access Token
use_token kind t =
    if t.revoked
    then denied ("Revoked " ++ kind)
    else if leb t.uses_left 0
    then denied ("Expired " ++ kind)
    else granted (record t { uses_left = t.uses_left - 1 })

unfoldable pub require_user : Option String → State → Access (String × State)
unfolding use_token
require_user authorization s = elim (bearer_token authorization) [
  | none ↦ denied "Missing bearer token."
  | some token ↦ elim (lookup token s.access_tokens) [
    | none ↦ denied "Invalid bearer token."
    | some t ↦ elim (use_token "bearer token." t) [
      | denied detail ↦ denied detail
      | granted u ↦
          granted (t.username, record s { access_tokens = insert token u s.access_tokens })
    ]
  ]
]

-- An empty cookie counts as missing.
unfoldable pub require_session : Option String → State → Access (String × State)
unfolding use_token
require_session none s = denied "Missing session cookie."
require_session (some session_id) s =
    if str_eq session_id ""
    then denied "Missing session cookie."
    else elim (lookup session_id s.sessions) [
      | none ↦ denied "Invalid session cookie."
      | some t ↦ elim (use_token "session cookie." t) [
        | denied detail ↦ denied detail
        | granted u ↦ granted (t.username, record s { sessions = insert session_id u s.sessions })
      ]
    ]
