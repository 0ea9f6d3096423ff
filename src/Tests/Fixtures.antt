-- ===== src/Tests/Fixtures.antt =====
-- A small database, and a failover configuration with two addresses.
use xray_routing_panel.Prelude.{ℕ, true, false, Option, none, some, String, [], ◌∷◌}
use xray_routing_panel.Database.{Db}
use xray_routing_panel.Database.Tables.{Port, new_purchase, payment_submitted, submitted}
use xray_routing_panel.Failover.Peak.{unknown_zone}
use xray_routing_panel.Failover.Config.{Config, Reading}
use xray_routing_panel.Failover.State.{Failover, default_row}
use xray_routing_panel.Failover.Service.{SwitchReading, CheckReading, DnsRecord, answered}

abbrev pub port : ℕ → ℕ → String → Option ℕ → Option ℕ → Port
port id listen_port token expires_at limit = record {
  id = id;
  listen_port = listen_port;
  upstream_host = "127.0.0.1";
  upstream_port = 1080;
  tenant_token = token;
  subscription_token = "";
  tenant_username = token;
  tenant_password = "secret";
  expires_at = expires_at;
  traffic_limit_bytes = limit;
  enabled = true;
  note = "";
  customer_id = none;
  service_subscription_id = none;
  source_order_id = none;
  created_at = 1;
  updated_at = 1;
}

-- Three ports: one that expires at 100, one over its limit, one without bounds. One order is paid.
abbrev pub db : Db
db = record {
  ports =
      port 1 20001 "a" (some 100) none
      ∷ port 2 20002 "b" none (some 1000)
      ∷ port 3 20003 "c" none none
      ∷ [];
  next_port_id = 4;
  totals =
      record {
        listen_port = 20002;
        total_connections = 2;
        total_bytes_sent = 600;
        total_bytes_received = 500;
        last_seen = some 7;
      }
      ∷ [];
  daily =
      record {
        listen_port = 20002;
        stat_date = 0;
        total_connections = 2;
        total_bytes_sent = 600;
        total_bytes_received = 500;
      }
      ∷ [];
  probes = [];
  probe_history = [];
  app_state = [];
  log_inode = "";
  log_offset = 0;
  customers = record { id = 1; email = "x@example.com"; is_active = true } ∷ [];
  plans =
      record {
        id = 1;
        name = "basic";
        description = "";
        price_fen = 990;
        currency = "CNY";
        duration_days = 30;
        traffic_limit_bytes = 5000;
        enabled = true;
      }
      ∷ [];
  orders =
      record {
        id = 1;
        order_no = "N1";
        customer_id = 1;
        plan_id = 1;
        kind = new_purchase;
        service_subscription_id = none;
        status = payment_submitted;
        plan_name_snapshot = "basic";
        plan_description_snapshot = "";
        price_fen_snapshot = 990;
        currency_snapshot = "CNY";
        duration_days_snapshot = 30;
        traffic_limit_bytes_snapshot = 5000;
        expires_at = some 90;
        fulfilled_at = none;
        cancelled_at = none;
        rejection_reason = "";
        created_at = 1;
        updated_at = 2;
      }
      ∷ [];
  next_order_id = 2;
  subscriptions = [];
  next_subscription_id = 1;
  submissions =
      record {
        id = 1;
        order_id = 1;
        proof_image_path = "p";
        payer_note = "";
        submitted_at = 2;
        review_note = "";
        reviewed_at = none;
        review_status = submitted;
      }
      ∷ [];
  next_submission_id = 2;
}

-- Two failures move the record away from the primary address.
abbrev pub config : Config
config = record {
  enabled = true;
  failure_threshold = 2;
  recovery_threshold = 3;
  probe_host = "203.0.113.1";
  probe_port = some 443;
  api_token = "t";
  zone_id = "z";
  record_id = "r";
  record_type = "A";
  record_name = "example.com";
  record_proxied = false;
  record_ttl = 60;
  primary_content = "203.0.113.1";
  backup_content = "203.0.113.2";
  peak_enabled = false;
  peak_start = "";
  peak_end = "";
  backup_xray_enabled = false;
  is_remote = false;
}

abbrev pub reading : Reading
reading = record { primary_ip = (false, ""); backup_ip = (false, ""); clock = unknown_zone "" }

abbrev pub dns_record : String → DnsRecord
dns_record content = record { content = content; ttl = some 60; proxied = false }

-- A provider that stores what it is sent.
abbrev pub switching : SwitchReading
switching = record {
  status = reading;
  fetched = answered (dns_record "203.0.113.1");
  synced = λ content. answered (dns_record content);
  now = 10;
}

abbrev pub check : Option String → CheckReading
check probe = record {
  status = reading;
  probe = probe;
  now = 10;
  window = reading;
  switching = switching;
}

abbrev pub fresh : ℕ → Failover
fresh failures = record {
  row = record default_row { consecutive_failures = failures };
  history = [];
  next_id = 1;
}
