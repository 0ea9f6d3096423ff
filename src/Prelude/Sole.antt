-- ===== src/Prelude/Sole.antt =====
-- Lists in which at most one element passes a test.
use mathlib.Core.Path.{◌≡◌, refl}
use mathlib.Core.Bool.{Bool, true, false}
use mathlib.Core.Logic.{inl, inr}
use mathlib.Core.List.{List, [], ◌∷◌, ◌++◌}
use native.Mathlib.Omega.{arith}
use xray_routing_panel.Prelude.Tests.{Bool-cases}
use xray_routing_panel.Prelude.Lists.{All, any, update}

module _ {ℓ} {A : Type ℓ} (q : A → Bool) where
  -- After an element that passes, no other one does.
  abbrev pub IsSole : List A → Type 0
  IsSole [] = Unit
  IsSole (x ∷ xs) = (q x ≡ true → any q xs ≡ false) × IsSole xs

  any-append_one :
      (xs : List A) (y : A) → any q xs ≡ false → q y ≡ false → any q (xs ++ y ∷ []) ≡ false
  any-append_one [] y h k = ground (arith, k)
  any-append_one (x ∷ xs) y h k = ground (arith, h, any-append_one xs y)

  pub append-IsSole :
      (xs : List A) (y : A) → (q y ≡ true → any q xs ≡ false) → IsSole xs → IsSole (xs ++ y ∷ [])
  append-IsSole [] y h k = ((λ _. refl), tt)
  append-IsSole (x ∷ xs) y h k = elim (Bool-cases (q y)) [
    | inl e ↦
        let none_there : any q (x ∷ xs) ≡ false = h e in
        (
          (λ p. ground (arith, p, none_there)),
          append-IsSole xs y (λ _. ground (arith, none_there)) k.1,
        )
    | inr e ↦
        ((λ p. any-append_one xs y (k.0 p) e), append-IsSole xs y (λ t. ground (arith, t, e)) k.1)
  ]

  module _ (test : A → Bool) (f : A → A) where
    -- The update lets no element pass that did not.
    abbrev pub Opens : A → Type 0
    Opens x = test x ≡ true → q (f x) ≡ true → q x ≡ true

    any-update : (xs : List A) → All Opens xs → any q xs ≡ false → any q (update test f xs) ≡ false
    any-update [] a h = refl
    any-update (x ∷ xs) a h = elim (Bool-cases (test x)) [
      | inl e ↦ simp e (ground (arith, h, a.0 e, any-update xs a.1))
      | inr e ↦ simp e (ground (arith, h, any-update xs a.1))
    ]

    pub update-IsSole : (xs : List A) → All Opens xs → IsSole xs → IsSole (update test f xs)
    update-IsSole [] a h = tt
    update-IsSole (x ∷ xs) a h = elim (Bool-cases (test x)) [
      | inl e ↦ simp e ((λ p. any-update xs a.1 (h.0 (a.0 e p))), update-IsSole xs a.1 h.1)
      | inr e ↦ simp e ((λ p. any-update xs a.1 (h.0 p)), update-IsSole xs a.1 h.1)
    ]
