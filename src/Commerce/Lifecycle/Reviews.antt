-- ===== src/Commerce/Lifecycle/Reviews.antt =====
-- The reviews of an order by an administrator: `reject_order` and `cancel_order`.
use xray_routing_panel.Prelude.{
  ℕ, ◌≡◌, refl, sym, subst, Bool, true, not, Option, none, some, String, ◌==◌, Bool-cases,
  Option-cases, inl, inr, find, Error, validation_error, Exec, raise_if, gets, modify, ◌>>=◌, ◌>>◌,
  strip, is_empty,
}
use xray_routing_panel.Database.{Db}
use xray_routing_panel.Database.Tables.{Order, payment_rejected, cancelled, ReviewStatus, rejected}
use xray_routing_panel.Commerce.{
  is_open, is_submitted, expire_pending_orders, update_order, find_order, mark_reviewed, review,
  newest, is_long,
}
use xray_routing_panel.Commerce.Orders.{or_invalid, reject_order, cancel_order}
use xray_routing_panel.Commerce.Lifecycle.{
  cancel, stay, step, Evolves, Advances, Advances-refl, Advances-trans, find-passes,
  expire-Advances, order-Advances, reject_step,
}

-- Reading a row and testing it, before a part that advances every order where the row was found.
module _ {A B : Type 0} (i : ℕ) (look : Db → Option B) (test : B → Bool) (k : B → Exec Db A)
    (P : Db → Type 0)
    (advance : (b : B) (db : Db)
      → P db
      → look db ≡ some b
      → test b ≡ true
      → Advances (find_order i db) (find_order i (k b db).1))
    (message : String) (wrong : Error) where
  unfoldable pub with_row : Exec Db A
  with_row = do found ← gets look; b ← or_invalid found message; raise_if (not (test b)) wrong; k b

  pub with_row-Advances :
      (db : Db) → P db → Advances (find_order i db) (find_order i (with_row db).1)
  unfolding with_row or_invalid
  with_row-Advances db start = elim (Option-cases (look db)) [
    | inl e ↦ simp e (Advances-refl (find_order i db))
    | inr (b, e) ↦ elim (Bool-cases (test b)) [
      | inl t ↦ simp (e, t) (advance b db start e t)
      | inr t ↦ simp (e, t) (Advances-refl (find_order i db))
    ]
  ]

-- An advance of the found order, after a review that touches no order.
module _ (i j : ℕ) (o : Order) (f : Order → Order) (status : ReviewStatus) (note : String) (now : ℕ)
    (evolve : Evolves o (f o)) (keep : (o : Order) → (f o).id ≡ o.id) where
  advance_found :
      (db : Db)
      → find_order j db ≡ some o
      → Advances (find_order i db) (find_order i (update_order o.id f db))
  unfolding find_order
  advance_found db e =
      order-Advances i o.id f db o
        (subst (λ k. find (λ (o : Order). o.id == k) db.orders ≡ some o)
          (sym (find-passes j db.orders o e)) e)
        evolve keep

  review-Advances :
      (found : Option ℕ) (db : Db)
      → find_order j db ≡ some o
      → Advances
          (find_order i db)
          (find_order i ((review found status note now >> modify (update_order o.id f)) db).1)
  unfolding review find_order update_order
  review-Advances none db e = Advances-refl (find_order i db)
  review-Advances (some n) db e = advance_found db e

  pub reviewed-Advances :
      (db : Db)
      → find_order j db ≡ some o
      → Advances
          (find_order i db)
          (find_order i ((mark_reviewed o.id status note now >> modify (update_order o.id f)) db).1)
  unfolding mark_reviewed
  reviewed-Advances db e = review-Advances (newest o.id db.submissions) db e

module _ (i order_id : ℕ) (review_note : String) (now : ℕ) (db : Db) where
  -- Rejecting an order, whether it returns or raises, keeps every order on its terms, and takes its
  -- status along allowed steps only.
  pub reject_order-Advances :
      Advances (find_order i db) (find_order i (reject_order order_id review_note now db).1)
  unfolding reject_order with_row
  reject_order-Advances =
      let note = strip review_note in
      let start = expire_pending_orders now db in
      let rest =
        with_row-Advances i (find_order order_id) (λ (o : Order). is_submitted o.status)
          (λ o.
            mark_reviewed o.id rejected note now
            >> modify (
                update_order o.id (λ o. record o {
                  status = payment_rejected;
                  rejection_reason = note;
                  updated_at = now;
                })))
          (λ _. Unit {0})
          (λ o db _ e t.
            reviewed-Advances i order_id o _ rejected note now
              (step (reject_step o.status t) stay, refl) (λ o. refl) db e)
          "订单不存在。" (validation_error "当前订单状态不允许驳回。") start tt in
      elim (Bool-cases (is_empty note)) [
        | inl e ↦ simp e (Advances-refl (find_order i db))
        | inr e ↦ elim (Bool-cases (is_long 300 note)) [
          | inl l ↦ simp (e, l) (Advances-refl (find_order i db))
          | inr l ↦
              simp (e, l)
                (Advances-trans (find_order i db) (find_order i start) _ (expire-Advances i now db)
                  rest)
        ]
      ]

  -- Cancelling an order, whether it returns or raises, keeps every order on its terms, and takes its
  -- status along allowed steps only.
  pub cancel_order-Advances :
      Advances (find_order i db) (find_order i (cancel_order order_id review_note now db).1)
  unfolding cancel_order with_row
  cancel_order-Advances =
      let note = strip review_note in
      let start = expire_pending_orders now db in
      let rest =
        with_row-Advances i (find_order order_id) (λ (o : Order). is_open o.status)
          (λ o. modify (
            update_order o.id (λ o. record o {
              status = cancelled;
              cancelled_at = some now;
              rejection_reason = note;
              updated_at = now;
            })))
          (λ _. Unit {0})
          (λ o db _ e t.
            advance_found i order_id o _ rejected note now (step (cancel t) stay, refl) (λ o. refl)
              db e)
          "订单不存在。" (validation_error "当前订单状态不允许取消。") start tt in
      elim (Bool-cases (is_long 300 note)) [
        | inl l ↦ simp l (Advances-refl (find_order i db))
        | inr l ↦ simp l (
            Advances-trans (find_order i db) (find_order i start) _ (expire-Advances i now db) rest)
      ]
