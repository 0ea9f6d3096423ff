-- ===== src/Prelude/Apart.antt =====
-- Lists whose elements are pairwise apart by a Boolean test, as the rows under a UNIQUE index.
use mathlib.Core.Path.{◌≡◌, refl}
use mathlib.Core.Bool.{Bool, true, false, ◌||◌}
use mathlib.Core.List.{List, [], ◌∷◌, ◌++◌}
use native.Mathlib.Omega.{arith}
use xray_routing_panel.Prelude.Tests.{Bool-cases}
use mathlib.Core.Logic.{inl, inr}
use xray_routing_panel.Prelude.Lists.{All, any, select, update}

module _ {ℓ} {A : Type ℓ} (clash : A → A → Bool) where
  abbrev pub Apart : List A → Type 0
  Apart [] = Unit
  Apart (x ∷ xs) = (any (clash x) xs ≡ false) × Apart xs

module _ {ℓ} {A : Type ℓ} where
  pub any-select : (p q : A → Bool) (xs : List A) → any p xs ≡ false → any p (select q xs) ≡ false
  any-select p q [] h = refl
  any-select p q (x ∷ xs) h = ground (arith, any-select p q xs)

  pub any-append : (p : A → Bool) (xs ys : List A) → any p (xs ++ ys) ≡ (any p xs || any p ys)
  any-append p [] ys = refl
  any-append p (x ∷ xs) ys = ground (arith, any-append p xs ys)

  pub Apart-select :
      (clash : A → A → Bool) (q : A → Bool) (xs : List A)
      → Apart clash xs
      → Apart clash (select q xs)
  Apart-select clash q [] h = tt
  Apart-select clash q (x ∷ xs) h =
      ground (arith, any-select (clash x) q xs h.0, Apart-select clash q xs h.1)

  pub Apart-append_one :
      (clash : A → A → Bool) (new : A) (xs : List A)
      → All (λ x. clash x new ≡ false) xs
      → Apart clash xs
      → Apart clash (xs ++ new ∷ [])
  Apart-append_one clash new [] a h = (refl, tt)
  Apart-append_one clash new (x ∷ xs) a h = (
    ground (arith, any-append (clash x) xs (new ∷ []), h.0, a.0),
    Apart-append_one clash new xs a.1 h.1,
  )

  -- Where no element passes the test, each fails it.
  pub All-of_any : (p : A → Bool) (xs : List A) → any p xs ≡ false → All (λ x. p x ≡ false) xs
  All-of_any p [] h = tt
  All-of_any p (x ∷ xs) h = (ground arith, All-of_any p xs (ground arith))

  pub All-zip :
      (P Q R : A → Type 0)
      → ((x : A) → P x → Q x → R x)
      → (xs : List A) → All P xs
      → All Q xs
      → All R xs
  All-zip P Q R f [] h k = tt
  All-zip P Q R f (x ∷ xs) h k = (f x h.0 k.0, All-zip P Q R f xs h.1 k.1)

  pub All-of_append : (P : A → Type 0) (xs ys : List A) → All P (xs ++ ys) → All P xs × All P ys
  All-of_append P [] ys h = (tt, h)
  All-of_append P (x ∷ xs) ys h =
      let (left, right) = All-of_append P xs ys h.1 in ((h.0, left), right)

  pub All-append : (P : A → Type 0) (xs ys : List A) → All P xs → All P ys → All P (xs ++ ys)
  All-append P [] ys h k = k
  All-append P (x ∷ xs) ys h k = (h.0, All-append P xs ys h.1 k)

  pub All-map : (P Q : A → Type 0) → ((x : A) → P x → Q x) → (xs : List A) → All P xs → All Q xs
  All-map P Q f [] h = tt
  All-map P Q f (x ∷ xs) h = (f x h.0, All-map P Q f xs h.1)

  pub All-append_one :
      (P : A → Type 0) (xs : List A) (x : A) → All P xs → P x → All P (xs ++ x ∷ [])
  All-append_one P [] x h p = (p, tt)
  All-append_one P (y ∷ ys) x h p = (h.0, All-append_one P ys x h.1 p)

  pub All-true : (xs : List A) → All (λ _. Unit {0}) xs
  All-true [] = tt
  All-true (x ∷ xs) = (tt, All-true xs)

  pub All-update :
      (P : A → Type 0) (test : A → Bool) (f : A → A)
      → ((x : A) → P x → P (f x))
      → (xs : List A) → All P xs
      → All P (update test f xs)
  All-update P test f keep [] h = tt
  All-update P test f keep (x ∷ xs) h =
      ground (arith, h.0, keep x h.0, All-update P test f keep xs h.1)

  pub All-select : (P : A → Type 0) (q : A → Bool) (xs : List A) → All P xs → All P (select q xs)
  All-select P q [] h = tt
  All-select P q (x ∷ xs) h = ground (arith, h.0, All-select P q xs h.1)

-- An update of the rows that pass a test keeps the rows apart, if no two rows pass it and what it
-- writes is apart from every row of the list.
module _ {ℓ} {A : Type ℓ} (clash : A → A → Bool) (test : A → Bool) (f : A → A) (K : A → Type 0)
    (one : (p q : A) → test p ≡ true → test q ≡ true → clash p q ≡ true)
    (left : (p q : A)
      → K q
      → test p ≡ true
      → test q ≡ false
      → clash p q ≡ false
      → clash (f p) q ≡ false)
    (right : (p q : A)
      → K q
      → test p ≡ true
      → test q ≡ false
      → clash q p ≡ false
      → clash q (f p) ≡ false) where
  any-update_other :
      (q : A) (xs : List A)
      → K q
      → test q ≡ false
      → any (clash q) xs ≡ false
      → any (clash q) (update test f xs) ≡ false
  any-update_other q [] k t h = refl
  any-update_other q (p ∷ xs) k t h = ground (arith, right p q k, any-update_other q xs k t)

  any-update_self :
      (p : A) (xs : List A)
      → All K xs
      → test p ≡ true
      → any (clash p) xs ≡ false
      → any (clash (f p)) (update test f xs) ≡ false
  any-update_self p [] k t h = refl
  any-update_self p (q ∷ xs) k t h =
      ground (arith, one p q t, left p q k.0 t, any-update_self p xs k.1 t)

  pub Apart-update : (xs : List A) → All K xs → Apart clash xs → Apart clash (update test f xs)
  Apart-update [] k h = tt
  Apart-update (x ∷ xs) k h = elim (Bool-cases (test x)) [
    | inl e ↦ rw e (any-update_self x xs k.1 e h.0, Apart-update xs k.1 h.1)
    | inr e ↦ rw e (any-update_other x xs k.0 e h.0, Apart-update xs k.1 h.1)
  ]
