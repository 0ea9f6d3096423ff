-- ===== src/Commerce/Lifecycle/Runs.antt =====
-- Any sequence of calls on orders, each in a transaction of its own.
use xray_routing_panel.Prelude.{
  ℕ, ◌+◌, ◌≡◌, refl, true, Option, none, some, String, List, [], ◌∷◌, ◌++◌, find, Result, ok, err,
  validation_error, Exec, modify, ◌>>◌,
}
use xray_routing_panel.Database.{Db, transaction, end_transaction}
use xray_routing_panel.Database.Tables.{Order, OrderKind, payment_submitted, submitted}
use xray_routing_panel.Ports.Operations.{Draws}
use xray_routing_panel.Commerce.{is_awaiting, expire_pending_orders, update_order, find_order}
use xray_routing_panel.Commerce.Orders.{OrderReading, create_order, reject_order, cancel_order}
use xray_routing_panel.Commerce.Payment.{is_order_of, insert_submission}
use xray_routing_panel.Commerce.Fulfilment.{ShopSettings, fulfill_in_tx}
use xray_routing_panel.Commerce.Lifecycle.{
  stay, step, Advances, Advances-refl, Advances-trans, expire-Advances, order-Advances, pay_step,
}
use xray_routing_panel.Commerce.Lifecycle.Reviews.{
  with_row, with_row-Advances, reject_order-Advances, cancel_order-Advances,
}
use xray_routing_panel.Commerce.Lifecycle.Sales.{fulfill_in_tx-Advances}
use xray_routing_panel.Commerce.Lifecycle.Keys.{OrdersKeyed, find-by_id, expire-OrdersKeyed}
use xray_routing_panel.Commerce.Lifecycle.Kept.{
  create_order-Keeps, reject_order-Keeps, cancel_order-Keeps, fulfill_in_tx-Keeps,
  insert_submission-Keeps, IsAfter, create_order-IsAfter,
}

module _ (i customer_id : ℕ) (order_no path note : String) (now : ℕ) where
  abbrev submit_found : Order → Exec Db Unit
  submit_found order =
      modify (λ (db : Db). record db {
        submissions =
            db.submissions
            ++ record {
              id = db.next_submission_id;
              order_id = order.id;
              proof_image_path = path;
              payer_note = note;
              submitted_at = now;
              review_note = "";
              reviewed_at = none;
              review_status = submitted;
            }
              ∷ [];
        next_submission_id = db.next_submission_id + 1;
      })
      >> modify (
          update_order order.id
            (λ o. record o { status = payment_submitted; rejection_reason = ""; updated_at = now }))

  submit_found-Advances :
      (o : Order) (db : Db)
      → OrdersKeyed db
      → find (is_order_of customer_id order_no) db.orders ≡ some o
      → is_awaiting o.status ≡ true
      → Advances (find_order i db) (find_order i (submit_found o db).1)
  unfolding find_order update_order
  submit_found-Advances o db h e t =
      order-Advances i o.id _ db o (find-by_id (is_order_of customer_id order_no) db.orders o h.0 e)
        (step (pay_step o.status t) stay, refl) (λ o. refl)

  insert_submission-Advances :
      (db : Db)
      → OrdersKeyed db
      → Advances
          (find_order i db)
          (find_order i (insert_submission customer_id order_no path note now db).1)
  unfolding insert_submission with_row
  insert_submission-Advances db h =
      let start = expire_pending_orders now db in
      Advances-trans (find_order i db) (find_order i start) _ (expire-Advances i now db) (
        with_row-Advances i (λ (db : Db). find (is_order_of customer_id order_no) db.orders)
          (λ (o : Order). is_awaiting o.status) submit_found OrdersKeyed submit_found-Advances
          "订单不存在。" (validation_error "当前订单状态不允许重新提交支付凭证。") start (expire-OrdersKeyed now db h))

-- The calls that change orders; `lapse_due` is `expire_pending_orders`, which the queries call first.
pub data OrderCall : Type 0 where
  create : ℕ → ℕ → Option OrderKind → Option ℕ → OrderReading → OrderCall
  submit : ℕ → String → String → String → ℕ → OrderCall
  reject cancel : ℕ → String → ℕ → OrderCall
  fulfill : ShopSettings → Draws → ℕ → String → OrderCall
  lapse_due : ℕ → OrderCall

-- The tables after a call, which rolls back if it raises.
unfoldable pub after : OrderCall → Db → Db
after (create customer_id plan_id kind service_id w) db =
    (transaction (create_order customer_id plan_id kind service_id w) db).1
after (submit customer_id order_no path note now) db =
    (transaction (insert_submission customer_id order_no path note now) db).1
after (reject order_id note now) db = (transaction (reject_order order_id note now) db).1
after (cancel order_id note now) db = (transaction (cancel_order order_id note now) db).1
after (fulfill shop w order_id note) db = (transaction (fulfill_in_tx shop w order_id note) db).1
after (lapse_due now) db = (transaction (modify (expire_pending_orders now)) db).1

unfoldable pub run : List OrderCall → Db → Db
unfolding after
run [] db = db
run (c ∷ cs) db = run cs (after c db)

module _ {A : Type 0} (P : Db → Type 0) where
  end-keeps : (r : Result A × Db) (db : Db) → P db → P r.1 → P (end_transaction r db).1
  unfolding end_transaction
  end-keeps (ok a, db') db h h' = h'
  end-keeps (err e, db') db h h' = h

  pub transaction-keeps : (op : Exec Db A) (db : Db) → P db → P (op db).1 → P (transaction op db).1
  unfolding transaction
  transaction-keeps op db h h' = end-keeps (op db) db h h'

after-OrdersKeyed : (c : OrderCall) (db : Db) → OrdersKeyed db → OrdersKeyed (after c db)
unfolding after
after-OrdersKeyed (create customer_id plan_id kind service_id w) db h =
    transaction-keeps OrdersKeyed _ db h
      ((create_order-Keeps customer_id plan_id kind service_id w).at db h)
after-OrdersKeyed (submit customer_id order_no path note now) db h =
    transaction-keeps OrdersKeyed _ db h
      ((insert_submission-Keeps customer_id order_no path note now).at db h)
after-OrdersKeyed (reject order_id note now) db h =
    transaction-keeps OrdersKeyed _ db h ((reject_order-Keeps order_id note now).at db h)
after-OrdersKeyed (cancel order_id note now) db h =
    transaction-keeps OrdersKeyed _ db h ((cancel_order-Keeps order_id note now).at db h)
after-OrdersKeyed (fulfill shop w order_id note) db h =
    transaction-keeps OrdersKeyed _ db h ((fulfill_in_tx-Keeps shop w order_id note).at db h)
after-OrdersKeyed (lapse_due now) db h =
    transaction-keeps OrdersKeyed _ db h (expire-OrdersKeyed now db h)

module _ (i : ℕ) where
  after-Advances :
      (c : OrderCall) (db : Db)
      → OrdersKeyed db
      → Advances (find_order i db) (find_order i (after c db))
  unfolding after
  after-Advances (create customer_id plan_id kind service_id w) db h =
      transaction-keeps (IsAfter i db) _ db (Advances-refl (find_order i db)) (
        (create_order-IsAfter i db customer_id plan_id kind service_id w).at db
          (Advances-refl (find_order i db)))
  after-Advances (submit customer_id order_no path note now) db h =
      transaction-keeps (IsAfter i db) _ db (Advances-refl (find_order i db))
        (insert_submission-Advances i customer_id order_no path note now db h)
  after-Advances (reject order_id note now) db h =
      transaction-keeps (IsAfter i db) _ db (Advances-refl (find_order i db))
        (reject_order-Advances i order_id note now db)
  after-Advances (cancel order_id note now) db h =
      transaction-keeps (IsAfter i db) _ db (Advances-refl (find_order i db))
        (cancel_order-Advances i order_id note now db)
  after-Advances (fulfill shop w order_id note) db h =
      transaction-keeps (IsAfter i db) _ db (Advances-refl (find_order i db))
        (fulfill_in_tx-Advances i shop w note order_id db)
  after-Advances (lapse_due now) db h =
      transaction-keeps (IsAfter i db) _ db (Advances-refl (find_order i db))
        (expire-Advances i now db)

  -- Whatever calls are made on orders, returning or raising, from a table with distinct ids below
  -- the next one: an order that is there stays, on the terms it was placed on, and its status has
  -- gone along allowed steps only.
  pub run-Advances :
      (cs : List OrderCall) (db : Db)
      → OrdersKeyed db
      → Advances (find_order i db) (find_order i (run cs db))
  unfolding run
  run-Advances [] db h = Advances-refl (find_order i db)
  run-Advances (c ∷ cs) db h =
      Advances-trans (find_order i db) (find_order i (after c db))
        (find_order i (run cs (after c db))) (after-Advances c db h)
        (run-Advances cs (after c db) (after-OrdersKeyed c db h))
