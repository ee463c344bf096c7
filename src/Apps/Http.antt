-- ===== src/Apps/Http.antt =====
-- What the target applications have in common: FastAPI hands a handler the decoded request and
-- sends its reply. FastAPI and pydantic are no part of the repository; of them the models use that a
-- request which does not fit the declared fields is answered with 422, and the handler does not run.
pub mod Routes
use Prim.Native.String.{count}
use p_loadtesting.Prelude.{ℕ, String, ◌&&◌, Option, none, some, leb, if◌then◌else◌}
use p_loadtesting.Js.Value.{Value, undefined, number, text, object, Fields, end, field, get_field}

pub record Reply (Num : Type 0) : Type 0 where
  pub status : ℕ
  pub body : Value Num
  -- `some (some v)` sets the session cookie, `some none` deletes it
  pub cookie : Option (Option String)

module _ {Num : Type 0} where
  abbrev pub reply : ℕ → Fields Num → Reply Num
  reply status fs = record { status = status; body = object fs; cookie = none }

  -- `raise HTTPException(status_code=…, detail=…)`
  abbrev pub http_error : ℕ → String → Reply Num
  http_error status detail = reply status (field "detail" (text detail) end)

  abbrev pub unprocessable : Reply Num
  unprocessable = http_error 422 "Unprocessable Entity"

  -- The value of a key in the JSON body; `undefined` where it is missing.
  abbrev pub body_field : String → Value Num → Value Num
  body_field k (object fs) = get_field k fs
  body_field k _ = undefined

  -- `field: str = Field(min_length=lo, max_length=hi)`
  abbrev pub str_field : ℕ → ℕ → Value Num → Option String
  str_field lo hi (text s) = if leb lo (count s) && leb (count s) hi then some s else none
  str_field lo hi _ = none

  -- `field: int = Field(default=d, ge=lo, le=hi)`; `as_int` is the integer that pydantic reads a
  -- value of JSON as, where it takes it as one and it is not negative: it takes whole numbers, and
  -- some texts and Boolean values.
  abbrev pub int_field : (Value Num → Option ℕ) → ℕ → ℕ → ℕ → Value Num → Option ℕ
  int_field as_int d lo hi undefined = some d
  int_field as_int d lo hi v = elim (as_int v) [
    | none ↦ none
    | some n ↦ if leb lo n && leb n hi then some n else none
  ]

infixl 5 ◌>>=◌
abbrev pub ◌>>=◌ {ℓ κ} : {A : Type ℓ} {B : Type κ} → Option A → (A → Option B) → Option B
none >>= f = none
some a >>= f = f a
