-- ===== src/Flows.antt =====
-- A script against its target application. `Delivers` states what the scripts rely on of k6 and of
-- the transport between it and an application: a request is answered by the application's reply,
-- and `check` returns true where every check passes.
pub mod Extends
pub mod Local
pub mod AuthRefresh
pub mod MfaCode
pub mod RefreshExpiry
pub mod StressData
pub mod Crud
pub mod Latency
pub mod Sockets
pub mod PayloadDownload
pub mod AuthSession
pub mod AuthMfa
pub mod AuthCheckout
use Prim.Native.String.{◌++◌, count}
use p_loadtesting.Prelude.{
  ℕ, ◌<◌, Option, some, String, ◌≡◌, refl, ap, true, ◌≢◌, arith, List, [], ◌∷◌, ◌==◌,
}
use p_loadtesting.Apps.Http.{Reply, body_field}
use p_loadtesting.Js.Number.{JsNumber, safe}
use p_loadtesting.Js.Outcome.{Outcome, returned, threw}
use p_loadtesting.Js.Value.{number, Value}
use p_loadtesting.K6.{
  Request, Response, Host, Session, Event, sent, checked, Checks, Passes, AllPass, send, check,
  has_status, M,
}

pub record Delivers {Num S : Type 0} (k6 : Host Num S) (base : String)
    (serve : Request Num → String → S → Reply Num × S) : Type 0 where
  pub response : Reply Num → Response Num
  pub status : (r : Reply Num) → (response r).status ≡ r.status
  pub json :
      (r : Reply Num) (key : String) → (response r).json key ≡ returned (body_field key r.body)
  pub at :
      (req : Request Num) (path : String) (s : S)
      → req.url ≡ base ++ path
      → k6.send req s ≡ (returned (response (serve req path s).0), (serve req path s).1)
  pub passes : (cs : Checks) → Passes cs → k6.check cs ≡ returned true

-- FastAPI reads the JSON text of a whole number as that integer.
pub record ReadsIntegers {Num : Type 0} (num : JsNumber Num) (as_int : Value Num → Option ℕ)
    : Type 0 where
  pub as_int-of_ℕ : (n : ℕ) → n < safe → as_int (number (num.of_ℕ n)) ≡ some n

-- A digest of SHA-256 is written with 64 hexadecimal digits.
abbrev pub IsDigest : (String → String) → Type 0
IsDigest hash = (s : String) → count (hash s) ≡ 64

-- The iteration ends without an exception, and every check of it passes.
abbrev pub Succeeds : {Num World A : Type 0} → Outcome A × Session Num World → Type 0
Succeeds (returned _, s) = AllPass s.events
Succeeds (threw, s) = ⊥

module _ {Num S : Type 0} {k6 : Host Num S} {base : String}
    {serve : Request Num → String → S → Reply Num × S} (d : Delivers k6 base serve) where
  -- One request, given what the application answers.
  pub send-Delivers :
      (req : Request Num) (path : String) (s s' : S) (rep : Reply Num)
      → req.url ≡ base ++ path
      → serve req path s ≡ (rep, s')
      → k6.send req s ≡ (returned (d.response rep), s')
  send-Delivers req path s s' rep url served = rw (d.at req path s url) (rw served)

  pub status-Delivers :
      (code : ℕ) (rep : Reply Num)
      → rep.status ≡ code
      → has_status code (d.response rep) ≡ returned true
  status-Delivers code rep e = rw (d.status rep, e) (ground arith)

  -- The check of a status that the application's reply has.
  pub check-Delivers :
      (name : String) (code : ℕ) (rep : Reply Num)
      → rep.status ≡ code
      → k6.check ((name, has_status code (d.response rep)) ∷ []) ≡ returned true
  check-Delivers name code rep e = d.passes _ (status-Delivers code rep e, tt)

  status-Delivers_inv :
      (code : ℕ) (rep : Reply Num)
      → has_status code (d.response rep) ≡ returned true
      → rep.status ≡ code
  status-Delivers_inv code rep e = ground (arith, d.status rep)

  -- A check of a status that the application's reply does not have does not pass.
  pub wrong_status-Delivers :
      (name : String) (code : ℕ) (rep : Reply Num)
      → rep.status ≢ code
      → ¬ Passes ((name, has_status code (d.response rep)) ∷ [])
  wrong_status-Delivers name code rep differs (e, _) = differs (status-Delivers_inv code rep e)
