-- ===== src/Commerce/Lifecycle.antt =====
-- The life of an order under the operations of app/state/commerce.py: the steps of its status, and
-- what they leave alone.
pub mod Reviews
pub mod Untouched
pub mod Sales
pub mod Keys
pub mod Kept
pub mod Runs
pub mod Settled
pub mod Renewals
pub mod Exclusive
pub mod Rivals
use xray_routing_panel.Prelude.{
  ℕ, ◌≡◌, refl, ap, subst, ◌∙◌, Bool, true, false, Option, none, some, String, List, [], ◌∷◌, ◌==◌,
  Bool-cases, inl, inr, find, update, arith,
}
use xray_routing_panel.Database.{Db}
use xray_routing_panel.Database.Tables.{
  Order, OrderKind, OrderStatus, pending_payment, payment_submitted, payment_rejected, fulfilled,
  cancelled, expired,
}
use xray_routing_panel.Commerce.{
  is_awaiting, is_open, is_submitted, is_due, expire_pending_orders, update_order, find_order,
}

-- One step of an order's status.
infix 40 ◌⟶◌ ◌⟶*◌
pub data ◌⟶◌ : OrderStatus → OrderStatus → Type 0 where
  pay : pending_payment ⟶ payment_submitted
  pay_again : payment_rejected ⟶ payment_submitted
  reject : payment_submitted ⟶ payment_rejected
  fulfil : payment_submitted ⟶ fulfilled
  cancel : {s : OrderStatus} → is_open s ≡ true → s ⟶ cancelled
  lapse : {s : OrderStatus} → is_awaiting s ≡ true → s ⟶ expired

pub data ◌⟶*◌ : OrderStatus → OrderStatus → Type 0 where
  stay : {s : OrderStatus} → s ⟶* s
  step : {s t u : OrderStatus} → s ⟶ t → t ⟶* u → s ⟶* u

-- What an order says of the sale, which no operation changes.
abbrev pub terms : Order → ℕ × String × ℕ × ℕ × OrderKind × ℕ × String × ℕ × ℕ
terms o = (
  o.id, o.order_no, o.customer_id, o.plan_id, o.kind, o.price_fen_snapshot, o.currency_snapshot,
  o.duration_days_snapshot, o.traffic_limit_bytes_snapshot,
)

abbrev pub Evolves : Order → Order → Type 0
Evolves o o' = (o.status ⟶* o'.status) × (terms o ≡ terms o')

-- An order that is there stays, on the same terms, with a status reached by steps.
abbrev pub Advances : Option Order → Option Order → Type 0
Advances none o' = Unit
Advances (some o) none = ⊥
Advances (some o) (some o') = Evolves o o'

run_trans : {s t u : OrderStatus} → s ⟶* t → t ⟶* u → s ⟶* u
run_trans stay k = k
run_trans (step h hs) k = step h (run_trans hs k)

pub Advances-refl : (o : Option Order) → Advances o o
Advances-refl none = tt
Advances-refl (some o) = (stay, refl)

pub Advances-trans : (o p q : Option Order) → Advances o p → Advances p q → Advances o q
Advances-trans none p q h k = tt
Advances-trans (some o) none q h k = absurd h
Advances-trans (some o) (some p) none h k = k
Advances-trans (some o) (some p) (some q) h k = (run_trans h.0 k.0, h.1 ∙ k.1)

-- An update that takes each row it touches along advances every order.
pub update-Advances :
    (i : ℕ) (test : Order → Bool) (f : Order → Order) (xs : List Order)
    → ((o : Order) → find (λ (o : Order). o.id == i) xs ≡ some o → test o ≡ true → Evolves o (f o))
    → ((o : Order) → (f o).id ≡ o.id)
    → Advances
        (find (λ (o : Order). o.id == i) xs)
        (find (λ (o : Order). o.id == i) (update test f xs))
update-Advances i test f [] h keep = tt
update-Advances i test f (x ∷ xs) h keep = elim (Bool-cases (test x)) [
  | inl t ↦ elim (Bool-cases (x.id == i)) [
    | inl e ↦
        let moved : ((f x).id == i) ≡ true = ap (λ n. n == i) (keep x) ∙ e in
        simp (t, e, moved) (h x (simp e refl) t)
    | inr e ↦
        let moved : ((f x).id == i) ≡ false = ap (λ n. n == i) (keep x) ∙ e in
        simp (t, e, moved) (update-Advances i test f xs (λ o found. h o (simp e found)) keep)
  ]
  | inr t ↦ elim (Bool-cases (x.id == i)) [
    | inl e ↦ simp (t, e) (Advances-refl (some x))
    | inr e ↦ simp (t, e) (update-Advances i test f xs (λ o found. h o (simp e found)) keep)
  ]
]

pub find-passes :
    (i : ℕ) (xs : List Order) (o : Order) → find (λ (o : Order). o.id == i) xs ≡ some o → o.id ≡ i
find-passes i [] o h = cc
find-passes i (x ∷ xs) o h = elim (Bool-cases (x.id == i)) [
  | inl e ↦ let same : some x ≡ some o = simp e at h in let id : x.id ≡ i = ground arith in cc
  | inr e ↦ find-passes i xs o (simp e at h)
]

module _ (i : ℕ) where
  same_order :
      (j : ℕ) (f : Order → Order) (xs : List Order) (o o' : Order)
      → find (λ (o : Order). o.id == j) xs ≡ some o
      → Evolves o (f o)
      → find (λ (o : Order). o.id == i) xs ≡ some o'
      → (o'.id == j) ≡ true
      → Evolves o' (f o')
  same_order j f xs o o' found h found' t =
      let passes : o'.id ≡ i = find-passes i xs o' found' in
      let same : i ≡ j = ground (arith, passes) in
      let moved : find (λ (o : Order). o.id == j) xs ≡ some o' =
        subst (λ k. find (λ (o : Order). o.id == k) xs ≡ some o') same found' in
      let equal : o ≡ o' = cc in subst (λ o. Evolves o (f o)) equal h

  pub expire-Advances :
      (now : ℕ) (db : Db) → Advances (find_order i db) (find_order i (expire_pending_orders now db))
  unfolding find_order expire_pending_orders
  expire-Advances now db =
      update-Advances i (is_due now) (λ o. record o { status = expired; updated_at = now })
        db.orders (λ o found due. (step (lapse (ground arith)) stay, refl)) (λ o. refl)

  -- An update of the order that was found, whose step is right for its status.
  pub order-Advances :
      (j : ℕ) (f : Order → Order) (db : Db) (o : Order)
      → find_order j db ≡ some o
      → Evolves o (f o)
      → ((o : Order) → (f o).id ≡ o.id)
      → Advances (find_order i db) (find_order i (update_order j f db))
  unfolding find_order update_order
  order-Advances j f db o found h keep =
      update-Advances i (λ (o : Order). o.id == j) f db.orders
        (λ o' found' t. same_order j f db.orders o o' found h found' t) keep

pub reject_step : (s : OrderStatus) → is_submitted s ≡ true → s ⟶ payment_rejected
reject_step payment_submitted h = reject
reject_step _ h = ground arith

pub fulfil_step : (s : OrderStatus) → is_submitted s ≡ true → s ⟶ fulfilled
fulfil_step payment_submitted h = fulfil
fulfil_step _ h = ground arith

pub pay_step : (s : OrderStatus) → is_awaiting s ≡ true → s ⟶ payment_submitted
pay_step pending_payment h = pay
pay_step payment_rejected h = pay_again
pay_step _ h = ground arith
