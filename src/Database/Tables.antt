-- ===== src/Database/Tables.antt =====
-- The rows of the tables of app/state/ports.py, app/state/traffic.py, app/state/probes.py and
-- app/state/commerce.py.
use xray_routing_panel.Prelude.{ℕ, Bool, String, Option}

-- `ports`
pub record Port : Type 0 where
  pub id : ℕ
  pub listen_port : ℕ
  pub upstream_host : String
  pub upstream_port : ℕ
  pub tenant_token : String
  pub subscription_token : String
  pub tenant_username : String
  pub tenant_password : String
  pub expires_at : Option ℕ
  pub traffic_limit_bytes : Option ℕ
  pub enabled : Bool
  pub note : String
  pub customer_id : Option ℕ
  pub service_subscription_id : Option ℕ
  pub source_order_id : Option ℕ
  pub created_at : ℕ
  pub updated_at : ℕ

-- `traffic_totals`
pub record Total : Type 0 where
  pub listen_port : ℕ
  pub total_connections : ℕ
  pub total_bytes_sent : ℕ
  pub total_bytes_received : ℕ
  pub last_seen : Option ℕ

-- `traffic_daily`; `stat_date` is a number of days
pub record Daily : Type 0 where
  pub listen_port : ℕ
  pub stat_date : ℕ
  pub total_connections : ℕ
  pub total_bytes_sent : ℕ
  pub total_bytes_received : ℕ

-- `upstream_probes` and `upstream_probe_history`
pub record Probe : Type 0 where
  pub listen_port : ℕ
  pub is_reachable : Bool
  pub checked_at : ℕ

-- `customers`
pub record Customer : Type 0 where
  pub id : ℕ
  pub email : String
  pub is_active : Bool

-- `plans`
pub record Plan : Type 0 where
  pub id : ℕ
  pub name : String
  pub description : String
  pub price_fen : ℕ
  pub currency : String
  pub duration_days : ℕ
  pub traffic_limit_bytes : ℕ
  pub enabled : Bool

pub data OrderKind : Type 0 where
  new_purchase renewal : OrderKind

-- The six texts of the column `orders.status`.
pub data OrderStatus : Type 0 where
  pending_payment payment_submitted payment_rejected fulfilled cancelled expired : OrderStatus

-- `orders`
pub record Order : Type 0 where
  pub id : ℕ
  pub order_no : String
  pub customer_id : ℕ
  pub plan_id : ℕ
  pub kind : OrderKind
  pub service_subscription_id : Option ℕ
  pub status : OrderStatus
  pub plan_name_snapshot : String
  pub plan_description_snapshot : String
  pub price_fen_snapshot : ℕ
  pub currency_snapshot : String
  pub duration_days_snapshot : ℕ
  pub traffic_limit_bytes_snapshot : ℕ
  pub expires_at : Option ℕ
  pub fulfilled_at : Option ℕ
  pub cancelled_at : Option ℕ
  pub rejection_reason : String
  pub created_at : ℕ
  pub updated_at : ℕ

-- `service_subscriptions`
pub record Subscription : Type 0 where
  pub id : ℕ
  pub customer_id : ℕ
  pub plan_id : ℕ
  pub port_id : Option ℕ
  pub source_order_id : ℕ
  pub latest_order_id : Option ℕ
  pub created_at : ℕ
  pub updated_at : ℕ

pub data ReviewStatus : Type 0 where
  submitted approved rejected : ReviewStatus

-- `order_payment_submissions`
pub record Submission : Type 0 where
  pub id : ℕ
  pub order_id : ℕ
  pub proof_image_path : String
  pub payer_note : String
  pub submitted_at : ℕ
  pub review_note : String
  pub reviewed_at : Option ℕ
  pub review_status : ReviewStatus
