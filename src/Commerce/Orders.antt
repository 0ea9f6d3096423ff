-- ===== src/Commerce/Orders.antt =====
-- The operations on orders that touch no port: creating, rejecting and cancelling one.
use xray_routing_panel.Prelude.{
  ℕ, ◌+◌, Bool, false, ◌&&◌, not, Option, none, some, String, [], ◌∷◌, ◌++◌, ◌==◌, str_eq, is_empty,
  strip, any, find, ok, err, validation_error, Exec, pure, raise, raise_if, gets, modify, ◌>>=◌,
  ◌>>◌,
}
use xray_routing_panel.Database.{Db}
use xray_routing_panel.Database.Tables.{
  Customer, Plan, Order, OrderKind, new_purchase, renewal, pending_payment, payment_rejected,
  cancelled, rejected,
}
use xray_routing_panel.Commerce.{
  is_open, is_submitted, expire_pending_orders, update_order, find_order, order_deadline,
  service_status, renewal_allowed, find_service, mark_reviewed, draw_order_no, is_long,
}

unfoldable pub or_invalid : {A : Type 0} → Option A → String → Exec Db A
or_invalid none message db = (err (validation_error message), db)
or_invalid (some a) message db = (ok a, db)

-- What the creation of an order reads: the clock, the drawn order numbers, and
-- `COMMERCE_ORDER_EXPIRY_HOURS_DEFAULT`.
pub record OrderReading : Type 0 where
  pub now : ℕ
  pub order_no : ℕ → String
  pub fallback_hours : ℕ

-- `WHERE service_subscription_id = ? AND status IN (…)` over open orders
abbrev pub is_open_for : ℕ → Order → Bool
is_open_for service_id o =
    elim o.service_subscription_id [ none ↦ false | some i ↦ i == service_id ] && is_open o.status

-- The checks of a renewal, down to the one that no open order for the service exists.
unfoldable pub check_renewal : ℕ → ℕ → Plan → Option ℕ → Exec Db (Option ℕ)
check_renewal now customer_id plan none = raise (validation_error "续费订单缺少服务实例。")
check_renewal now customer_id plan (some service_id) = do
  found ← gets (find_service service_id customer_id)
  service ← or_invalid found "服务实例不存在。"
  raise_if (not (service.plan_id == plan.id)) (validation_error "v1 仅支持按原套餐续费。")
  status ← gets (service_status now service)
  raise_if (not (renewal_allowed status)) (validation_error "当前服务未到续费窗口，仅已过期或流量用尽的服务可续费。")
  existing ← gets (λ (db : Db). any (is_open_for service_id) db.orders)
  raise_if existing (validation_error "当前服务已有未完成的续费订单。")
  pure (some service_id)

unfoldable pub check_kind : ℕ → ℕ → Plan → OrderKind → Option ℕ → Exec Db (Option ℕ)
check_kind now customer_id plan new_purchase service_id = pure none
check_kind now customer_id plan renewal service_id = check_renewal now customer_id plan service_id

-- `INSERT INTO orders`
unfoldable pub insert_order : Order → Db → Db
insert_order o db = record db {
  orders = db.orders ++ record o { id = db.next_order_id } ∷ [];
  next_order_id = db.next_order_id + 1;
}

abbrev pub new_order : ℕ → ℕ → String → Plan → OrderKind → Option ℕ → ℕ → Order
new_order now customer_id order_no plan kind service_id deadline = record {
  id = 0;
  order_no = order_no;
  customer_id = customer_id;
  plan_id = plan.id;
  kind = kind;
  service_subscription_id = service_id;
  status = pending_payment;
  plan_name_snapshot = plan.name;
  plan_description_snapshot = plan.description;
  price_fen_snapshot = plan.price_fen;
  currency_snapshot = plan.currency;
  duration_days_snapshot = plan.duration_days;
  traffic_limit_bytes_snapshot = plan.traffic_limit_bytes;
  expires_at = some deadline;
  fulfilled_at = none;
  cancelled_at = none;
  rejection_reason = "";
  created_at = now;
  updated_at = now;
}

-- The end of `create_order`: the number, the deadline and the row.
unfoldable pub place_order : OrderReading → ℕ → Plan → OrderKind → Option ℕ → Exec Db String
place_order w customer_id plan kind service = do
  taken ← gets (λ (db : Db) no. any (λ (o : Order). str_eq o.order_no no) db.orders)
  order_no ← draw_order_no taken w.order_no 0 16
  deadline ← gets (order_deadline w.fallback_hours w.now)
  modify (insert_order (new_order w.now customer_id order_no plan kind service deadline))
  pure order_no

-- `create_order`; no kind is a text that names none
unfoldable pub create_order : ℕ → ℕ → Option OrderKind → Option ℕ → OrderReading → Exec Db String
create_order customer_id plan_id kind_text service_id w = do
  modify (expire_pending_orders w.now)
  active ←
      gets (λ (db : Db). any (λ (c : Customer). c.id == customer_id && c.is_active) db.customers)
  raise_if (not active) (validation_error "客户账号不可用。")
  found ← gets (λ (db : Db). find (λ (p : Plan). p.id == plan_id) db.plans)
  plan ← or_invalid found "套餐不存在。"
  raise_if (not plan.enabled) (validation_error "套餐已下架。")
  kind ← or_invalid kind_text "订单类型不支持。"
  service ← check_kind w.now customer_id plan kind service_id
  place_order w customer_id plan kind service

-- `reject_order`
unfoldable pub reject_order : ℕ → String → ℕ → Exec Db Unit
reject_order order_id review_note now = do
  let note = strip review_note
  raise_if (is_empty note) (validation_error "驳回订单时必须填写原因。")
  raise_if (is_long 300 note) (validation_error "驳回原因不能超过 300 个字符。")
  modify (expire_pending_orders now)
  found ← gets (find_order order_id)
  order ← or_invalid found "订单不存在。"
  raise_if (not (is_submitted order.status)) (validation_error "当前订单状态不允许驳回。")
  mark_reviewed order.id rejected note now
  modify (
      update_order order.id
        (λ o. record o { status = payment_rejected; rejection_reason = note; updated_at = now }))

-- `cancel_order`
unfoldable pub cancel_order : ℕ → String → ℕ → Exec Db Unit
cancel_order order_id review_note now = do
  let note = strip review_note
  raise_if (is_long 300 note) (validation_error "取消备注不能超过 300 个字符。")
  modify (expire_pending_orders now)
  found ← gets (find_order order_id)
  order ← or_invalid found "订单不存在。"
  raise_if (not (is_open order.status)) (validation_error "当前订单状态不允许取消。")
  modify (
      update_order order.id (λ o. record o {
        status = cancelled;
        cancelled_at = some now;
        rejection_reason = note;
        updated_at = now;
      }))
