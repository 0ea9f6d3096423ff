-- ===== src/Commerce/Lifecycle/Keys.antt =====
-- The primary key of `orders`, app/state/commerce.py.
use xray_routing_panel.Prelude.{
  ℕ, ◌+◌, ◌<◌, ◌≡◌, refl, subst, ==_refl, ◌∙◌, Bool, false, Option, none, some, String, List, [],
  ◌∷◌, ◌++◌, ◌==◌, Bool-cases, inl, inr, find, update, any, All, modify, arith,
}
use xray_routing_panel.Prelude.Apart.{
  Apart, Apart-append_one, All-zip, All-true, All-append_one, All-update,
}
use xray_routing_panel.Prelude.Keeps.{Keeps, Keeps-modify}
use xray_routing_panel.Database.{Db}
use xray_routing_panel.Database.Tables.{Order, ReviewStatus}
use xray_routing_panel.Commerce.{
  is_due, expire_pending_orders, update_order, mark_reviewed, review, newest,
}
use xray_routing_panel.Commerce.Orders.{or_invalid, insert_order}

abbrev pub same_id : Order → Order → Bool
same_id o p = o.id == p.id

-- No two orders share an id, and all are below the next one.
abbrev pub Keyed : List Order → ℕ → Type 0
Keyed xs n = Apart same_id xs × All (λ (o : Order). o.id < n) xs

abbrev pub OrdersKeyed : Db → Type 0
OrdersKeyed db = Keyed db.orders db.next_order_id

module _ (test : Order → Bool) (f : Order → Order) (keep : (o : Order) → (f o).id ≡ o.id) where
  any-update_id :
      (o : Order) (xs : List Order) → any (same_id o) (update test f xs) ≡ any (same_id o) xs
  any-update_id o [] = refl
  any-update_id o (x ∷ xs) = ground (arith, keep x, any-update_id o xs)

  any_of_id :
      (o p : Order) (xs : List Order) → o.id ≡ p.id → any (same_id o) xs ≡ any (same_id p) xs
  any_of_id o p [] e = refl
  any_of_id o p (x ∷ xs) e = ground (arith, e, any_of_id o p xs)

  Apart-update_id : (xs : List Order) → Apart same_id xs → Apart same_id (update test f xs)
  Apart-update_id [] h = tt
  Apart-update_id (x ∷ xs) h = elim (Bool-cases (test x)) [
    | inl e ↦
        simp e
          (any-update_id (f x) xs ∙ any_of_id (f x) x xs (keep x) ∙ h.0, Apart-update_id xs h.1)
    | inr e ↦ simp e (any-update_id x xs ∙ h.0, Apart-update_id xs h.1)
  ]

  pub update-Keyed : (xs : List Order) (n : ℕ) → Keyed xs n → Keyed (update test f xs) n
  update-Keyed xs n h = (
    Apart-update_id xs h.0,
    All-update (λ (o : Order). o.id < n) test f (λ o k. omega (arith, keep o)) xs h.1,
  )

insert-Keyed :
    (o : Order) (xs : List Order) (n : ℕ)
    → Keyed xs n
    → Keyed (xs ++ record o { id = n } ∷ []) (n + 1)
insert-Keyed o xs n h = (
  Apart-append_one same_id (record o { id = n }) xs
      (All-zip (λ (o : Order). o.id < n) (λ _. Unit {0}) _ (λ o k _. ground (arith, k)) xs h.1
        (All-true xs))
      h.0,
  All-append_one (λ (o : Order). o.id < n + 1) xs (record o { id = n })
      (All-zip (λ (o : Order). o.id < n) (λ _. Unit {0}) _ (λ o k _. omega (arith, k)) xs h.1
        (All-true xs))
      (omega arith),
)

find-any :
    (test p : Order → Bool) (xs : List Order) (o : Order)
    → find test xs ≡ some o
    → any p xs ≡ false
    → p o ≡ false
find-any test p [] o h k = cc
find-any test p (x ∷ xs) o h k = elim (Bool-cases (test x)) [
  | inl e ↦ let same : x ≡ o = cc (simp e at h) in subst (λ y. p y ≡ false) same (ground (arith, k))
  | inr e ↦ find-any test p xs o (simp e at h) (ground (arith, k))
]

-- In a keyed table the row that any test finds is the row of its id.
pub find-by_id :
    (test : Order → Bool) (xs : List Order) (o : Order)
    → Apart same_id xs
    → find test xs ≡ some o
    → find (λ (p : Order). p.id == o.id) xs ≡ some o
find-by_id test [] o h e = cc
find-by_id test (x ∷ xs) o h e = elim (Bool-cases (test x)) [
  | inl t ↦
      let same : x ≡ o = cc (simp t at e) in
      subst (λ (o : Order). find (λ (p : Order). p.id == o.id) (x ∷ xs) ≡ some o) same
        (simp ==_refl refl)
  | inr t ↦
      let there : find test xs ≡ some o = simp t at e in
      let other : (x.id == o.id) ≡ false = find-any test (same_id x) xs o there h.0 in
      simp other (find-by_id test xs o h.1 there)
]

insert_order-OrdersKeyed : (o : Order) (db : Db) → OrdersKeyed db → OrdersKeyed (insert_order o db)
unfolding insert_order
insert_order-OrdersKeyed o db h = insert-Keyed o db.orders db.next_order_id h

pub expire-OrdersKeyed :
    (now : ℕ) (db : Db) → OrdersKeyed db → OrdersKeyed (expire_pending_orders now db)
unfolding expire_pending_orders
expire-OrdersKeyed now db h = update-Keyed (is_due now) _ (λ o. refl) db.orders db.next_order_id h

pub update_order-OrdersKeyed :
    (i : ℕ) (f : Order → Order)
    → ((o : Order) → (f o).id ≡ o.id)
    → (db : Db) → OrdersKeyed db
    → OrdersKeyed (update_order i f db)
unfolding update_order
update_order-OrdersKeyed i f keep db h =
    update-Keyed (λ (o : Order). o.id == i) f keep db.orders db.next_order_id h

pub or_invalid-Keeps :
    {A : Type 0} {P : Db → Type 0} (o : Option A) (m : String) → Keeps P (or_invalid o m)
unfolding or_invalid
or_invalid-Keeps none m = record { at = λ db h. h }
or_invalid-Keeps (some a) m = record { at = λ db h. h }

pub expire-Keeps : (now : ℕ) → Keeps OrdersKeyed (modify (expire_pending_orders now))
expire-Keeps now = Keeps-modify _ (expire-OrdersKeyed now)

pub insert_order-Keeps : (o : Order) → Keeps OrdersKeyed (modify (insert_order o))
insert_order-Keeps o = Keeps-modify _ (insert_order-OrdersKeyed o)

pub update_order-Keeps :
    (i : ℕ) (f : Order → Order)
    → ((o : Order) → (f o).id ≡ o.id)
    → Keeps OrdersKeyed (modify (update_order i f))
update_order-Keeps i f keep = Keeps-modify _ (update_order-OrdersKeyed i f keep)

review-Keeps :
    (found : Option ℕ) (status : ReviewStatus) (note : String) (now : ℕ)
    → Keeps OrdersKeyed (review found status note now)
unfolding review
review-Keeps none status note now = record { at = λ db h. h }
review-Keeps (some i) status note now = record { at = λ db h. h }

pub mark_reviewed-Keeps :
    (i : ℕ) (status : ReviewStatus) (note : String) (now : ℕ)
    → Keeps OrdersKeyed (mark_reviewed i status note now)
unfolding mark_reviewed
mark_reviewed-Keeps i status note now = record {
  at = λ db h. (review-Keeps (newest i db.submissions) status note now).at db h;
}
