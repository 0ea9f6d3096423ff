-- ===== src/Prelude/Returns.antt =====
-- Chains of results: the calls that raise or return without a state of their own.
use mathlib.Core.Path.{◌≡◌, refl, subst}
use mathlib.Core.Bool.{Bool, true, false}
use native.Mathlib.Omega.{arith}
use xray_routing_panel.Prelude.Tests.{if◌then◌else◌}
use xray_routing_panel.Prelude.Calls.{Error, Result, ok, err}

module _ {A B : Type 0} where
  abbrev pub and_then : Result A → (A → Result B) → Result B
  and_then (ok a) f = f a
  and_then (err e) f = err e

pub ok_injective : {A : Type 0} {a b : A} → ok a ≡ ok b → a ≡ b
ok_injective h = ground (arith, h)

pub ok_not_err : {A : Type 0} {a : A} {e : Error} → err e ≡ ok a → ⊥
ok_not_err h = ground (arith, h)

-- What a result is, where it is one.
pub record Returns {A : Type 0} (P : A → Type 0) (r : Result A) : Type 0 where
  pub at : (a : A) → r ≡ ok a → P a

module _ {A B : Type 0} where
  -- What a chain of results that returns has passed.
  pub and_then-ok :
      (r : Result A) (f : A → Result B) {b : B}
      → and_then r f ≡ ok b
      → (a : A) × (r ≡ ok a) × (f a ≡ ok b)
  and_then-ok (ok a) f h = (a, refl, h)
  and_then-ok (err e) f h = absurd (ok_not_err h)

module _ {A B : Type 0} {P : B → Type 0} where
  pub Returns-and_then :
      (r : Result A) (f : A → Result B)
      → ((a : A) → r ≡ ok a → Returns P (f a))
      → Returns P (and_then r f)
  Returns-and_then r f k = record {
    at = λ b h. let (a, e, g) = and_then-ok r f h in (k a e).at b g;
  }

module _ {A : Type 0} {P : A → Type 0} where
  pub Returns-ok : (a : A) → P a → Returns P (ok a)
  Returns-ok a p = record { at = λ b h. subst P (ok_injective h) p }

  pub Returns-err : (e : Error) → Returns P (err e)
  Returns-err e = record { at = λ a h. absurd (ok_not_err h) }

  pub Returns-if :
      (b : Bool) (e : Error) (r : Result A)
      → (b ≡ false → Returns P r)
      → Returns P (if b then err e else r)
  Returns-if true e r k = record { at = λ a h. absurd (ok_not_err h) }
  Returns-if false e r k = k refl

  pub Returns-choice :
      (b : Bool) (x y : Result A) → Returns P x → Returns P y → Returns P (if b then x else y)
  Returns-choice true x y h k = h
  Returns-choice false x y h k = k
