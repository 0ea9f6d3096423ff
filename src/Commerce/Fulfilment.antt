-- ===== src/Commerce/Fulfilment.antt =====
-- `fulfill_order` of app/state/commerce.py: the operation between the synchronization of the
-- traffic and the apply, and the whole of it.
use xray_routing_panel.Prelude.{
  ℕ, ◌+◌, true, not, Option, none, some, String, [], ◌∷◌, ◌++◌, leb, ◌==◌, if◌then◌else◌,
  str_append, str_len, take_text, strip, find, update, ok, err, validation_error, Exec, pure,
  raise_if, gets, lift, modify, ◌>>=◌, ◌>>◌,
}
use xray_routing_panel.Database.{Db}
use xray_routing_panel.Database.Tables.{
  Port, Customer, Order, OrderKind, new_purchase, renewal, fulfilled, Subscription, approved,
}
use xray_routing_panel.Traffic.{reset_port_usage}
use xray_routing_panel.Ports.{insert_port, update_port_row}
use xray_routing_panel.Ports.Operations.{
  Draws, unique_tenant_token, unique_subscription_token, unique_tenant_username,
}
use xray_routing_panel.Apply.Persist.{System, Settings}
use xray_routing_panel.Apply.Mutation.{MutationWorld, apply_mutation}
use xray_routing_panel.Commerce.{
  is_submitted, expire_pending_orders, update_order, service_expiry, service_port, find_service,
  mark_reviewed, is_long,
}
use xray_routing_panel.Commerce.Orders.{or_invalid}
use xray_routing_panel.Commerce.Allocation.{AutoPorts, allocate_auto_port}

-- `DEFAULT_UPSTREAM_HOST` and `DEFAULT_UPSTREAM_PORT` beside the range on sale
pub record ShopSettings : Type 0 where
  pub auto_ports : AutoPorts
  pub upstream_host : String
  pub upstream_port : ℕ

-- `build_service_note`
unfoldable pub build_service_note : String → String → String
build_service_note customer_email plan_name =
    let base = str_append plan_name (str_append " / " customer_email) in
    if leb (str_len base) 200 then base else take_text 200 base

-- `INSERT INTO service_subscriptions`
unfoldable pub insert_subscription : Subscription → Exec Db ℕ
insert_subscription s db = (
  ok db.next_subscription_id,
  record db {
    subscriptions = db.subscriptions ++ record s { id = db.next_subscription_id } ∷ [];
    next_subscription_id = db.next_subscription_id + 1;
  },
)

-- A new purchase opens a port and a service that refer to each other.
unfoldable pub open_service : ShopSettings → Draws → String → Order → Exec Db (Option ℕ)
open_service c w customer_email order = do
  allocated ← gets (allocate_auto_port c.auto_ports)
  listen_port ← lift allocated
  tenant_token ← unique_tenant_token w
  subscription_token ← unique_subscription_token w
  tenant_username ← unique_tenant_username w
  port_id ← insert_port (record {
    id = 0;
    listen_port = listen_port;
    upstream_host = c.upstream_host;
    upstream_port = c.upstream_port;
    tenant_token = tenant_token;
    subscription_token = subscription_token;
    tenant_username = tenant_username;
    tenant_password = w.tenant_password;
    expires_at = some (service_expiry w.now order.duration_days_snapshot);
    traffic_limit_bytes = some order.traffic_limit_bytes_snapshot;
    enabled = true;
    note = build_service_note customer_email order.plan_name_snapshot;
    customer_id = some order.customer_id;
    service_subscription_id = none;
    source_order_id = some order.id;
    created_at = w.now;
    updated_at = w.now;
  })
  service_id ← insert_subscription (record {
    id = 0;
    customer_id = order.customer_id;
    plan_id = order.plan_id;
    port_id = some port_id;
    source_order_id = order.id;
    latest_order_id = some order.id;
    created_at = w.now;
    updated_at = w.now;
  })
  modify (update_port_row port_id (λ p. record p { service_subscription_id = some service_id }))
  pure (some service_id)

-- The service of a renewal, with its port.
unfoldable pub renewal_target : Order → Db → Option (Subscription × Port)
unfolding service_port
renewal_target order db = elim order.service_subscription_id [
  | none ↦ none
  | some service_id ↦ elim (find_service service_id order.customer_id db) [
    | none ↦ none
    | some s ↦ elim (service_port s db) [ none ↦ none | some p ↦ some (s, p) ]
  ]
]

-- A renewal gives the port a new term and limit, and takes its usage back to nothing.
unfoldable pub renew_service : ℕ → Order → Exec Db (Option ℕ)
renew_service now order = do
  found ← gets (renewal_target order)
  target ← or_invalid found "续费目标服务不存在。"
  let service = target.0
  let port = target.1
  modify (
      update_port_row port.id (λ p. record p {
        expires_at = some (service_expiry now order.duration_days_snapshot);
        traffic_limit_bytes = some order.traffic_limit_bytes_snapshot;
        enabled = true;
        updated_at = now;
      }))
  modify (reset_port_usage port.listen_port)
  modify (λ (db : Db). record db {
    subscriptions =
        update (λ (s : Subscription). s.id == service.id)
          (λ s. record s {
            latest_order_id = some order.id;
            plan_id = order.plan_id;
            updated_at = now;
          })
          db.subscriptions;
  })
  pure order.service_subscription_id

unfoldable pub serve : OrderKind → ShopSettings → Draws → String → Order → Exec Db (Option ℕ)
serve new_purchase c w customer_email order = open_service c w customer_email order
serve renewal c w customer_email order = renew_service w.now order

-- `orders` joined with `customers`
unfoldable pub find_order_with_email : ℕ → Db → Option (Order × String)
find_order_with_email order_id db = elim (find (λ (o : Order). o.id == order_id) db.orders) [
  | none ↦ none
  | some o ↦ elim (find (λ (c : Customer). c.id == o.customer_id) db.customers) [
    | none ↦ none
    | some c ↦ some (o, c.email)
  ]
]

-- The end of an approval: the newest submission is approved, and the order fulfilled.
unfoldable pub approve_order : Order → String → ℕ → Option ℕ → Exec Db Unit
approve_order order note now service_id = do
  mark_reviewed order.id approved note now
  modify (
      update_order order.id (λ o. record o {
        status = fulfilled;
        fulfilled_at = some now;
        rejection_reason = "";
        service_subscription_id = service_id;
        updated_at = now;
      }))

-- The statements of `fulfill_order` between BEGIN and the automatic stop.
unfoldable pub fulfill_in_tx : ShopSettings → Draws → ℕ → String → Exec Db Unit
fulfill_in_tx c w order_id note = do
  modify (expire_pending_orders w.now)
  found ← gets (find_order_with_email order_id)
  joined ← or_invalid found "订单不存在。"
  let order = joined.0
  raise_if (not (is_submitted order.status)) (validation_error "当前订单状态不允许审核开通。")
  service_id ← serve order.kind c w joined.1 order
  approve_order order note w.now service_id

-- `fulfill_order`
unfoldable pub fulfill_order :
    ShopSettings → Settings → MutationWorld → Draws → ℕ → String → Exec System Unit
unfolding apply_mutation
fulfill_order shop c world w order_id review_note s =
    let note = strip review_note in
    if is_long 300 note
    then (err (validation_error "审核备注不能超过 300 个字符。"), s)
    else apply_mutation c world (fulfill_in_tx shop w order_id note) s
