-- ===== src/Js/Outcome.antt =====
-- The two ways in which a JavaScript call ends: it returns a value, or it throws.
use p_loadtesting.Prelude.{◌≡◌, refl, ◌⊎◌, inl, inr, Bool, true, false}

pub data Outcome {ℓ} (A : Type ℓ) : Type ℓ where
  returned : A → Outcome A
  threw : Outcome A

infixl 5 ◌>>=◌
abbrev pub ◌>>=◌ {ℓ κ} : {A : Type ℓ} {B : Type κ} → Outcome A → (A → Outcome B) → Outcome B
returned a >>= f = f a
threw >>= f = threw

-- `try { return e; } catch { return other; }`
abbrev pub catch {ℓ} : {A : Type ℓ} → A → Outcome A → A
catch other (returned a) = a
catch other threw = other

abbrev pub on_value {ℓ κ} : {A : Type ℓ} {B : Type κ} → Outcome A → (A → B) → Outcome B
on_value (returned a) f = returned (f a)
on_value threw f = threw

-- `a && b`: the right side is evaluated only where the left side is true.
abbrev pub and_then : Outcome Bool → Outcome Bool → Outcome Bool
and_then (returned true) b = b
and_then (returned false) b = returned false
and_then threw b = threw

pub and_then-true :
    (a b : Outcome Bool) → and_then a b ≡ returned true → (a ≡ returned true) × (b ≡ returned true)
and_then-true (returned true) b h = (refl, h)
and_then-true _ b h = cc

pub Outcome-cases {ℓ} : {A : Type ℓ} (o : Outcome A) → (o ≡ threw) ⊎ ((a : A) × (o ≡ returned a))
Outcome-cases threw = inl refl
Outcome-cases (returned a) = inr (a, refl)

abbrev pub Returns {ℓ} : {A : Type ℓ} → Outcome A → Type ℓ
Returns {A = A} o = (a : A) × (o ≡ returned a)

pub Returns-bind :
    {A B : Type 0} (o : Outcome A) (f : A → Outcome B)
    → Returns o
    → ((a : A) → Returns (f a))
    → Returns (o >>= f)
Returns-bind (returned a) f h k = k a
Returns-bind threw f h k = cc (h.1)
