-- ===== src/Prelude/Keeps.antt =====
-- Invariants of calls over a state, one rule for each way to build a call.
use mathlib.Core.Bool.{Bool, true, false}
use mathlib.Core.Path.{◌≡◌, refl}
use xray_routing_panel.Prelude.Calls.{
  Error, Result, ok, err, Exec, pure, gets, lift, modify, raise_if, continue, ◌>>=◌,
}

-- The call keeps `P`, whether it returns or raises.
pub record Keeps {S A : Type 0} (P : S → Type 0) (m : Exec S A) : Type 0 where
  pub at : (s : S) → P s → P (m s).1

module _ {S A : Type 0} {P : S → Type 0} where
  pub Keeps-pure : (a : A) → Keeps P (pure a)
  Keeps-pure a = record { at = λ s h. h }

  pub Keeps-gets : (f : S → A) → Keeps P (gets f)
  Keeps-gets f = record { at = λ s h. h }

module _ {S : Type 0} {P : S → Type 0} where
  pub Keeps-modify : (f : S → S) → ((s : S) → P s → P (f s)) → Keeps P (modify f)
  Keeps-modify f keep = record { at = keep }

  pub Keeps-raise_if : (b : Bool) (e : Error) → Keeps P (raise_if b e)
  Keeps-raise_if true e = record { at = λ s h. h }
  Keeps-raise_if false e = record { at = λ s h. h }

module _ {S A B : Type 0} {P : S → Type 0} where
  continue-Keeps :
      (r : Result A) (f : A → Exec S B) → ((a : A) → Keeps P (f a)) → Keeps P (continue r f)
  continue-Keeps (ok a) f kf = kf a
  continue-Keeps (err e) f kf = record { at = λ s h. h }

  pub Keeps-bind :
      (m : Exec S A) (f : A → Exec S B) → Keeps P m → ((a : A) → Keeps P (f a)) → Keeps P (m >>= f)
  Keeps-bind m f km kf = record {
    at = λ s h. let (r, s') = m s in (continue-Keeps r f kf).at s' (km.at s h);
  }

module _ {S A B : Type 0} {P : S → Type 0} where
  -- What a computed result is stays known to the rest of the call.
  pub Keeps-lift :
      (r : Result A) (f : A → Exec S B)
      → ((a : A) → r ≡ ok a → Keeps P (f a))
      → Keeps P (lift r >>= f)
  Keeps-lift (ok a) f kf = record { at = (kf a refl).at }
  Keeps-lift (err e) f kf = record { at = λ s h. h }

pub ruleset keeps_rules = (Keeps-pure, Keeps-gets, Keeps-raise_if, Keeps-bind)
