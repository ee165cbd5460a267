-- ===== src/Run/Returns.antt =====
-- Total correctness of a run: it returns, within its fuel, and with a postcondition.
use djstub.Base.{◌≡◌, refl}
use djstub.Run.{World, Run, ok, Cmd, and_then}

pub data Returns {A : Type 0} (P : A → World → Type 0) : Run A → Type 0 where
  returns : {a : A} {w : World} → P a w → Returns P (ok a w)

module _ {A : Type 0} {P : A → World → Type 0} where
  pub bind :
      {B : Type 0} {Q : B → World → Type 0} {r : Run A} {k : A → Cmd B}
      → Returns P r
      → ((a : A) (w : World) → P a w → Returns Q (k a w))
      → Returns Q (and_then r k)
  bind (returns p) next = next _ _ p

  pub mono :
      {Q : A → World → Type 0} {r : Run A}
      → Returns P r
      → ((a : A) (w : World) → P a w → Q a w)
      → Returns Q r
  mono (returns p) weaken = returns (weaken _ _ p)

  -- The result and the final state of a run that returns.
  pub result : {r : Run A} → Returns P r → (a : A) × (w : World) × (r ≡ ok a w) × P a w
  result (returns {a} {w} p) = (a, w, refl, p)
