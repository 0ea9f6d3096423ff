-- ===== src/Commerce/Lifecycle/Sales.antt =====
-- The orders under `fulfill_order`.
use xray_routing_panel.Prelude.{
  ℕ, ◌≡◌, refl, ap, subst, ◌∙◌, true, Option, some, String, ◌==◌, find, Result, ok, err,
  validation_error, continue, ◌>>=◌, arith,
}
use xray_routing_panel.Database.{Db}
use xray_routing_panel.Database.Tables.{Order, approved}
use xray_routing_panel.Ports.Operations.{Draws}
use xray_routing_panel.Commerce.{is_submitted, expire_pending_orders, find_order}
use xray_routing_panel.Commerce.Fulfilment.{
  ShopSettings, serve, find_order_with_email, fulfill_in_tx, approve_order,
}
use xray_routing_panel.Commerce.Lifecycle.{
  stay, step, Advances, Advances-refl, Advances-trans, expire-Advances, fulfil_step,
}
use xray_routing_panel.Commerce.Lifecycle.Untouched.{serve-SameOrders}
use xray_routing_panel.Commerce.Lifecycle.Reviews.{with_row, with_row-Advances, reviewed-Advances}

-- What the joined read finds is the order of that key.
find_order_with_email-found :
    (j : ℕ) (db : Db) (b : Order × String)
    → find_order_with_email j db ≡ some b
    → find_order j db ≡ some b.0
unfolding find_order_with_email find_order
find_order_with_email-found j db b h = ground arith

find_order-ext :
    (db db' : Db) → db.orders ≡ db'.orders → (k : ℕ) → find_order k db ≡ find_order k db'
unfolding find_order
find_order-ext db db' h k = ap (find (λ (o : Order). o.id == k)) h

module _ (i : ℕ) (shop : ShopSettings) (w : Draws) (note : String) where
  served-Advances :
      (j : ℕ) (b : Order × String) (r : Result (Option ℕ)) (db : Db)
      → find_order j db ≡ some b.0
      → is_submitted b.0.status ≡ true
      → Advances (find_order i db) (find_order i (continue r (approve_order b.0 note w.now) db).1)
  unfolding approve_order
  served-Advances j b (err e) db h t = Advances-refl (find_order i db)
  served-Advances j b (ok service_id) db h t =
      reviewed-Advances i j b.0 _ approved note w.now (step (fulfil_step b.0.status t) stay, refl)
        (λ o. refl) db h

  found-Advances :
      (j : ℕ) (b : Order × String) (db : Db)
      → find_order_with_email j db ≡ some b
      → is_submitted b.0.status ≡ true
      → Advances
          (find_order i db)
          (find_order i ((serve b.0.kind shop w b.1 b.0 >>= approve_order b.0 note w.now) db).1)
  found-Advances j b db h t =
      let (r, db') = serve b.0.kind shop w b.1 b.0 db in
      let same : db'.orders ≡ db.orders =
        ((serve-SameOrders db.orders db.next_order_id b.0.kind shop w b.1 b.0).at db
          (refl, refl)).0 in
      let here : (k : ℕ) → find_order k db' ≡ find_order k db = find_order-ext db' db same in
      subst (λ o. Advances o (find_order i (continue r (approve_order b.0 note w.now) db').1))
        (here i) (served-Advances j b r db' (here j ∙ find_order_with_email-found j db b h) t)

  -- Approving an order, whether it returns or raises, keeps every order on its terms, and takes
  -- its status along allowed steps only.
  pub fulfill_in_tx-Advances :
      (order_id : ℕ) (db : Db)
      → Advances (find_order i db) (find_order i (fulfill_in_tx shop w order_id note db).1)
  unfolding fulfill_in_tx with_row
  fulfill_in_tx-Advances order_id db =
      let start = expire_pending_orders w.now db in
      Advances-trans (find_order i db) (find_order i start) _ (expire-Advances i w.now db) (
        with_row-Advances i (find_order_with_email order_id) (λ b. is_submitted b.0.status)
          (λ b. serve b.0.kind shop w b.1 b.0 >>= approve_order b.0 note w.now) (λ _. Unit {0})
          (λ b db _ e t. found-Advances order_id b db e t) "订单不存在。"
          (validation_error "当前订单状态不允许审核开通。") start tt)
