-- ===== src/Ports/Operations.antt =====
-- The mutations of `PortsService`, each as the operation of its transaction.
use xray_routing_panel.Prelude.{
  ℕ, Bool, true, ◌&&◌, ◌||◌, ◌==◌, not, Option, none, some, String, any, if◌then◌else◌, str_eq,
  is_some, ok, err, validation_error, integrity_error, Exec, pure, raise_if, gets, modify, ◌>>=◌,
  ◌>>◌,
}
use xray_routing_panel.Database.{Db}
use xray_routing_panel.Database.Tables.{Port}
use xray_routing_panel.Ports.{
  usage_bytes, insert_port, find_port, update_port_row, draw_unique, delete_port_in_tx, is_expired,
}
use xray_routing_panel.Traffic.{reset_port_usage}
use xray_routing_panel.Ports.Status.{quota_reached}

-- What one operation reads: the clock and the random texts that it draws.
pub record Draws : Type 0 where
  pub now : ℕ
  pub tenant_token : ℕ → String
  pub subscription_token : ℕ → String
  pub tenant_username : ℕ → String
  pub tenant_password : String

-- A validated form, as `validate_port_payload` returns it.
pub record PortPayload : Type 0 where
  pub listen_port : ℕ
  pub upstream_host : String
  pub upstream_port : ℕ
  pub expires_at : Option ℕ
  pub traffic_limit_bytes : Option ℕ
  pub note : String

-- `generate_unique_port_token` for each of its two columns, and `generate_unique_tenant_username`
unfoldable pub unique_tenant_token : Draws → Exec Db String
unique_tenant_token w db = (
  draw_unique (λ token. any (λ (p : Port). str_eq p.tenant_token token) db.ports)
      "无法为 tenant_token 生成唯一 token。" w.tenant_token 0 16,
  db,
)

unfoldable pub unique_subscription_token : Draws → Exec Db String
unique_subscription_token w db = (
  draw_unique (λ token. any (λ (p : Port). str_eq p.subscription_token token) db.ports)
      "无法为 subscription_token 生成唯一 token。" w.subscription_token 0 16,
  db,
)

unfoldable pub unique_tenant_username : Draws → Exec Db String
unique_tenant_username w db = (
  draw_unique (λ name. any (λ (p : Port). str_eq p.tenant_username name) db.ports) "无法生成唯一租户用户名。"
      w.tenant_username 0 16,
  db,
)

-- `create_port`
unfoldable pub create_port : PortPayload → Draws → Exec Db ℕ
create_port payload w = do
  tenant_token ← unique_tenant_token w
  subscription_token ← unique_subscription_token w
  tenant_username ← unique_tenant_username w
  insert_port (record {
    id = 0;
    listen_port = payload.listen_port;
    upstream_host = payload.upstream_host;
    upstream_port = payload.upstream_port;
    tenant_token = tenant_token;
    subscription_token = subscription_token;
    tenant_username = tenant_username;
    tenant_password = w.tenant_password;
    expires_at = payload.expires_at;
    traffic_limit_bytes = payload.traffic_limit_bytes;
    enabled = true;
    note = payload.note;
    customer_id = none;
    service_subscription_id = none;
    source_order_id = none;
    created_at = w.now;
    updated_at = w.now;
  })

unfoldable pub require_port : ℕ → Exec Db Port
require_port port_id db = elim (find_port port_id db) [
  | none ↦ (err (validation_error "端口记录不存在。"), db)
  | some p ↦ (ok p, db)
]

-- The UNIQUE index on `listen_port`, at an update of a row.
unfoldable pub listen_port_taken : ℕ → ℕ → Db → Bool
listen_port_taken port_id listen_port db =
    any (λ (p : Port). not (p.id == port_id) && p.listen_port == listen_port) db.ports

-- `update_port`
unfoldable pub update_port : ℕ → PortPayload → ℕ → Exec Db Unit
update_port port_id payload now = do
  require_port port_id
  taken ← gets (listen_port_taken port_id payload.listen_port)
  raise_if taken (integrity_error "ports.listen_port")
  modify (
      update_port_row port_id (λ p. record p {
        listen_port = payload.listen_port;
        upstream_host = payload.upstream_host;
        upstream_port = payload.upstream_port;
        expires_at = payload.expires_at;
        traffic_limit_bytes = payload.traffic_limit_bytes;
        note = payload.note;
        updated_at = now;
      }))

-- `toggle_port`, at a clock that its three readings share
unfoldable pub toggle_port : ℕ → ℕ → Exec Db Unit
toggle_port port_id now = do
  row ← require_port port_id
  raise_if (not row.enabled && is_expired row.expires_at now)
      (validation_error "端口已过期，请先修改到期时间再启用。")
  usage ← gets (λ (db : Db). usage_bytes row.listen_port db.totals)
  raise_if (not row.enabled && quota_reached row.traffic_limit_bytes usage)
      (validation_error "端口已达到流量上限，请先提高上限再启用。")
  modify (update_port_row port_id (λ p. record p { enabled = not row.enabled; updated_at = now }))

-- `delete_port`
unfoldable pub delete_port : ℕ → Exec Db Unit
delete_port port_id = do
  row ← require_port port_id
  raise_if (is_some row.customer_id || is_some row.service_subscription_id)
      (validation_error "商业化服务端口不能直接删除，请通过业务流程处理。")
  modify (delete_port_in_tx port_id row.listen_port)

-- `rotate_port_tenant_token`, `rotate_port_subscription_token`, `rotate_port_tenant_credentials`
unfoldable pub rotate_port_tenant_token : ℕ → Draws → Exec Db String
rotate_port_tenant_token port_id w = do
  require_port port_id
  token ← unique_tenant_token w
  modify (update_port_row port_id (λ p. record p { tenant_token = token; updated_at = w.now }))
  pure token

unfoldable pub rotate_port_subscription_token : ℕ → Draws → Exec Db String
rotate_port_subscription_token port_id w = do
  require_port port_id
  token ← unique_subscription_token w
  modify
      (update_port_row port_id (λ p. record p { subscription_token = token; updated_at = w.now }))
  pure token

unfoldable pub rotate_port_tenant_credentials : ℕ → Draws → Exec Db (String × String)
rotate_port_tenant_credentials port_id w = do
  require_port port_id
  username ← unique_tenant_username w
  modify (
      update_port_row port_id (λ p. record p {
        tenant_username = username;
        tenant_password = w.tenant_password;
        updated_at = w.now;
      }))
  pure (username, w.tenant_password)

-- `reset_port_traffic` of app/state/traffic.py
unfoldable pub reset_port_traffic : ℕ → ℕ → Exec Db Bool
reset_port_traffic port_id now = do
  row ← require_port port_id
  usage ← gets (λ (db : Db). usage_bytes row.listen_port db.totals)
  modify (reset_port_usage row.listen_port)
  let restored = quota_reached row.traffic_limit_bytes usage && not (is_expired row.expires_at now)
  modify (
      update_port_row port_id
        (λ p. record p { enabled = if restored then true else row.enabled; updated_at = now }))
  pure restored
