-- ===== src/Js/Action.antt =====
-- What a function does: it changes a state that it shares with others, and returns or throws.
use p_loadtesting.Js.Outcome.{Outcome, returned, threw}

abbrev pub Action : Type 0 → Type 0 → Type 0
Action S A = S → Outcome A × S

module _ {S A : Type 0} where
  abbrev pub pure : A → Action S A
  pure a s = (returned a, s)

  -- an expression that may throw
  abbrev pub lift : Outcome A → Action S A
  lift r s = (r, s)

module _ {S A B : Type 0} where
  abbrev pub continue : Outcome A × S → (A → Action S B) → Outcome B × S
  continue (returned a, s) f = f a s
  continue (threw, s) f = (threw, s)

  infixl 5 ◌>>=◌ ◌>>◌
  abbrev pub ◌>>=◌ : Action S A → (A → Action S B) → Action S B
  ◌>>=◌ m f s = continue (m s) f

  abbrev pub ◌>>◌ : Action S A → Action S B → Action S B
  m >> n = m >>= λ _. n
