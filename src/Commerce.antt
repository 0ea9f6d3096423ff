-- ===== src/Commerce.antt =====
-- app/state/commerce.py: orders, payment submissions and services. The operations here are the
-- functions that the service hands to a transaction.
pub mod Orders
pub mod Allocation
pub mod Fulfilment
pub mod Payment
pub mod Lifecycle
use xray_routing_panel.Prelude.{
  ℕ, zero, suc, ◌+◌, ◌*◌, max, Bool, true, false, ◌&&◌, ◌||◌, not, Option, none, some, String, List,
  [], ◌∷◌, ltb, leb, ◌==◌, if◌then◌else◌, str_eq, is_empty, strip, python_int, pos_part, str_len,
  any, find, update, get_or, ok, err, validation_error, runtime_error, Exec,
}
use xray_routing_panel.Database.{Db, get_state}
use xray_routing_panel.Database.Tables.{
  Port, Plan, Order, OrderStatus, pending_payment, payment_submitted, payment_rejected, fulfilled,
  cancelled, expired, Subscription, Submission, ReviewStatus,
}
use xray_routing_panel.Ports.Status.{Status, status_payload, port_status}

-- The statuses that an order can still expire from, and those of an open order.
abbrev pub is_awaiting : OrderStatus → Bool
is_awaiting pending_payment = true
is_awaiting payment_rejected = true
is_awaiting _ = false

abbrev pub is_open : OrderStatus → Bool
is_open pending_payment = true
is_open payment_submitted = true
is_open payment_rejected = true
is_open _ = false

abbrev pub is_submitted : OrderStatus → Bool
is_submitted payment_submitted = true
is_submitted _ = false

abbrev pub is_due : ℕ → Order → Bool
is_due now o = is_awaiting o.status && elim o.expires_at [ none ↦ false | some t ↦ leb t now ]

-- `expire_pending_orders_in_tx`
unfoldable pub expire_pending_orders : ℕ → Db → Db
expire_pending_orders now db = record db {
  orders = update (is_due now) (λ o. record o { status = expired; updated_at = now }) db.orders;
}

-- `UPDATE orders SET … WHERE id = ?`
unfoldable pub update_order : ℕ → (Order → Order) → Db → Db
update_order order_id f db = record db {
  orders = update (λ (o : Order). o.id == order_id) f db.orders;
}

unfoldable pub find_order : ℕ → Db → Option Order
find_order order_id db = find (λ (o : Order). o.id == order_id) db.orders

-- `order_expiry_hours` of `serialize_commerce_settings`; `fallback` is
-- `COMMERCE_ORDER_EXPIRY_HOURS_DEFAULT`
unfoldable pub order_expiry_hours : ℕ → Db → ℕ
unfolding get_state python_int
order_expiry_hours fallback db =
    let raw = get_or (get_state "commerce_order_expiry_hours" db) "" in
    if is_empty raw
    then max fallback 1
    else elim (python_int raw) [ none ↦ max fallback 1 | some hours ↦ max (pos_part hours) 1 ]

-- `compute_order_deadline_in_tx`
unfoldable pub order_deadline : ℕ → ℕ → Db → ℕ
unfolding order_expiry_hours
order_deadline fallback now db = now + order_expiry_hours fallback db * 3600

-- `compute_service_expiry`
unfoldable pub service_expiry : ℕ → ℕ → ℕ
service_expiry now duration_days = now + duration_days * 86400

-- The port that a service is joined with. The foreign key of `port_id` sets it to NULL when the port
-- is deleted, and keys are never used again, so a missing row is a NULL.
unfoldable pub service_port : Subscription → Db → Option Port
service_port s db = elim s.port_id [
  | none ↦ none
  | some port_id ↦ find (λ (p : Port). p.id == port_id) db.ports
]

-- `item["status"]` of `get_service_subscription_row_in_tx`; without a port all its columns are NULL
unfoldable pub service_status : ℕ → Subscription → Db → Status
unfolding service_port status_payload
service_status now s db = elim (service_port s db) [
  | none ↦ status_payload false none none 0 now
  | some p ↦ port_status now db.totals p
]

-- `item["renewal_allowed"]`
abbrev pub renewal_allowed : Status → Bool
renewal_allowed Status.expired = true
renewal_allowed Status.quota = true
renewal_allowed _ = false

-- The row that `get_service_subscription_row_in_tx` finds: the service, of that customer, whose
-- plan is there.
unfoldable pub find_service : ℕ → ℕ → Db → Option Subscription
find_service service_id customer_id db =
    find
      (λ (s : Subscription).
        s.id == service_id
        && s.customer_id == customer_id
        && any (λ (p : Plan). p.id == s.plan_id) db.plans)
      db.subscriptions

-- `ORDER BY id DESC LIMIT 1` over the submissions of an order.
unfoldable pub newest : ℕ → List Submission → Option ℕ
newest order_id [] = none
newest order_id (s ∷ ss) =
    let rest = newest order_id ss in
    if s.order_id == order_id
    then elim rest [ none ↦ some s.id | some i ↦ some (max s.id i) ]
    else rest

unfoldable pub review : Option ℕ → ReviewStatus → String → ℕ → Exec Db Unit
review none review_status review_note now db = (err (validation_error "订单缺少支付凭证。"), db)
review (some submission_id) review_status review_note now db = (
  ok tt,
  record db {
    submissions =
        update (λ (s : Submission). s.id == submission_id)
          (λ s. record s {
            review_status = review_status;
            review_note = strip review_note;
            reviewed_at = some now;
          })
          db.submissions;
  },
)

-- `mark_latest_payment_submission_reviewed_in_tx`
unfoldable pub mark_reviewed : ℕ → ReviewStatus → String → ℕ → Exec Db Unit
unfolding newest review
mark_reviewed order_id review_status review_note now db =
    review (newest order_id db.submissions) review_status review_note now db

-- The 16 draws of `generate_unique_order_no`.
unfoldable pub draw_order_no : (String → Bool) → (ℕ → String) → ℕ → ℕ → Exec Db String
draw_order_no taken draw i zero db = (err (runtime_error "无法生成唯一订单号。"), db)
draw_order_no taken draw i (suc k) db =
    let rest = draw_order_no taken draw (i + 1) k db in
    if taken (draw i) then rest else (ok (draw i), db)

-- A note of at most `limit` characters, stripped.
abbrev pub is_long : ℕ → String → Bool
is_long limit note = ltb limit (str_len note)
