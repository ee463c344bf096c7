-- ===== src/Flows/Extends.antt =====
-- An iteration only adds to the record of what it asked for: a check that failed stays there.
use p_loadtesting.Prelude.{Bool}
use p_loadtesting.Js.Outcome.{Outcome, returned, threw}
use p_loadtesting.Flows.{Succeeds}
use p_loadtesting.Js.Action.{continue}
use p_loadtesting.K6.{
  Request, Host, M, Session, Checks, AllPass, Passes, pure, lift, send, check, ◌>>=◌,
}

pub record Extends {Num World A : Type 0} (m : M Num World A) : Type 0 where
  pub at : (s : Session Num World) → AllPass (m s).1.events → AllPass s.events

module _ {Num World A : Type 0} where
  pub Extends-pure : (a : A) → Extends (pure {S = Session Num World} a)
  Extends-pure a = record { at = λ s h. h }

  pub Extends-lift : (r : Outcome A) → Extends (lift {S = Session Num World} r)
  Extends-lift r = record { at = λ s h. h }

module _ {Num World : Type 0} (k6 : Host Num World) where
  pub Extends-send : (req : Request Num) → Extends (send k6 req)
  Extends-send req = record { at = λ s h. h }

  pub Extends-check : (cs : Checks) → Extends (check k6 cs)
  Extends-check cs = record { at = λ s h. h.1 }

module _ {Num World A B : Type 0} where
  continue-AllPass :
      (r : Outcome A × Session Num World) (f : A → M Num World B)
      → ((a : A) → Extends (f a))
      → AllPass (continue r f).1.events
      → AllPass r.1.events
  continue-AllPass (returned a, s) f hf h = (hf a).at s h
  continue-AllPass (threw, s) f hf h = h

  pub Extends-bind :
      (m : M Num World A) (f : A → M Num World B)
      → Extends m
      → ((a : A) → Extends (f a))
      → Extends (m >>= f)
  Extends-bind m f hm hf = record { at = λ s h. hm.at s (continue-AllPass (m s) f hf h) }

pub ruleset extends_rules = (Extends-pure, Extends-lift, Extends-send, Extends-check, Extends-bind)

module _ {Num World A : Type 0} where
  Succeeds-AllPass : (r : Outcome A × Session Num World) → Succeeds r → AllPass r.1.events
  Succeeds-AllPass (returned a, s) h = h
  Succeeds-AllPass (threw, s) h = elim h [ ]

  -- A check that does not pass makes the iteration fail, whatever follows.
  pub check-fails :
      (k6 : Host Num World) (cs : Checks) (f : Bool → M Num World A) (s : Session Num World)
      → ((b : Bool) → Extends (f b))
      → ¬ Passes cs
      → ¬ Succeeds ((check k6 cs >>= f) s)
  check-fails k6 cs f s hf bad ok =
      bad (continue-AllPass (check k6 cs s) f hf (Succeeds-AllPass ((check k6 cs >>= f) s) ok)).0
