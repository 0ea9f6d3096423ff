-- ===== src/Failover/Config.antt =====
-- `DnsFailoverConfig` of app/dns_failover.py, and what app/state/dns_failover.py reads around it.
use xray_routing_panel.Prelude.{
  ℕ, Bool, true, false, not, ◌&&◌, ◌||◌, Option, String, is_some, if◌then◌else◌, is_empty, str_eq,
  strip, str_append, List, [], ◌∷◌,
}
use xray_routing_panel.Failover.Peak.{PeakWindow, LocalClock, peak_window_status}

pub record Config : Type 0 where
  pub enabled : Bool
  pub failure_threshold : ℕ
  pub recovery_threshold : ℕ
  pub probe_host : String
  pub probe_port : Option ℕ
  pub api_token : String
  pub zone_id : String
  pub record_id : String
  pub record_type : String
  pub record_name : String
  pub record_proxied : Bool
  pub record_ttl : ℕ
  pub primary_content : String
  pub backup_content : String
  pub peak_enabled : Bool
  pub peak_start : String
  pub peak_end : String
  -- `CONTROL_PLANE_BACKUP_XRAY_ENABLED`, and `node_controller.is_remote`
  pub backup_xray_enabled : Bool
  pub is_remote : Bool

-- What one call reads of the world: the two lookups of a public address (an address, or the
-- message of the exception), and the clock in the window's time zone.
pub record Reading : Type 0 where
  pub primary_ip : Bool × String
  pub backup_ip : Bool × String
  pub clock : LocalClock

-- `DnsFailoverConfig.configured`; a port of 0 is missing too, and none is configured as 0
unfoldable pub configured : Config → Bool
configured c =
    not (is_empty c.probe_host)
    && is_some c.probe_port
    && not (is_empty c.api_token)
    && not (is_empty c.zone_id)
    && not (is_empty c.record_id)
    && not (is_empty c.record_name)

-- `DnsFailoverConfig.record_type_supported`
unfoldable pub record_type_supported : Config → Bool
record_type_supported c =
    str_eq c.record_type "A" || str_eq c.record_type "AAAA" || str_eq c.record_type "CNAME"

pub record Contents : Type 0 where
  pub primary_content : String
  pub backup_content : String
  pub error : String

resolve_primary : Config → Reading → String → String × String
resolve_primary c r primary_content =
    if is_empty primary_content
    then (if c.is_remote
        then (primary_content, "远端数据面启用 DNS 故障切换时，必须设置 DNS_FAILOVER_PRIMARY_CONTENT。")
        else if r.primary_ip.0
        then (r.primary_ip.1, "")
        else (primary_content, str_append "主数据面公网 IP 自动获取失败: " r.primary_ip.1))
    else (primary_content, "")

resolve_backup : Config → Reading → String → String → String × String
resolve_backup c r backup_content error =
    if is_empty backup_content && is_empty error && c.backup_xray_enabled
    then (if r.backup_ip.0 then (r.backup_ip.1, error) else (backup_content, r.backup_ip.1))
    else (backup_content, error)

require_backup : String → String → String
require_backup backup_content error =
    if is_empty backup_content && is_empty error
    then "请设置 DNS_FAILOVER_BACKUP_CONTENT，或启用 CONTROL_PLANE_BACKUP_XRAY_ENABLED。"
    else error

-- `resolve_dns_failover_contents`
unfoldable pub resolve_contents : Config → Reading → Contents
unfolding resolve_primary resolve_backup require_backup
resolve_contents c r =
    let (primary_content, primary_error) = resolve_primary c r (strip c.primary_content) in
    let (backup_content, backup_error) =
      resolve_backup c r (strip c.backup_content) primary_error in
    record {
      primary_content = primary_content;
      backup_content = backup_content;
      error = require_backup backup_content backup_error;
    }

unfoldable pub peak_window : Config → Reading → PeakWindow
unfolding peak_window_status
peak_window c r = peak_window_status c.peak_enabled (strip c.peak_start) (strip c.peak_end) r.clock

-- `status["configured"]` of `dns_failover_status`
unfoldable pub status_configured : Config → Reading → Bool
unfolding configured record_type_supported resolve_contents
status_configured c r =
    let window = peak_window c r in
    c.enabled
    && configured c
    && record_type_supported c
    && is_empty (resolve_contents c r).error
    && (not window.enabled || window.configured)

join_comma : List String → String
join_comma [] = ""
join_comma (x ∷ []) = x
join_comma (x ∷ (y ∷ xs)) = str_append x (str_append ", " (join_comma (y ∷ xs)))

missing_if : Bool → String → List String → List String
missing_if true name names = name ∷ names
missing_if false name names = names

missing : Config → List String
unfolding missing_if
missing c = missing_if (is_empty c.probe_host) "DNS_FAILOVER_PROBE_HOST" (
    missing_if (not (is_some c.probe_port)) "DNS_FAILOVER_PROBE_PORT" (
      missing_if (is_empty c.api_token) "CF_API_TOKEN" (
        missing_if (is_empty c.zone_id) "CF_ZONE_ID" (
          missing_if (is_empty c.record_id) "CF_DNS_RECORD_ID"
            (missing_if (is_empty c.record_name) "CF_DNS_RECORD_NAME" [])))))

missing_message : List String → String → String
unfolding join_comma
missing_message [] rest = rest
missing_message (x ∷ xs) rest = str_append "缺少配置: " (join_comma (x ∷ xs))

-- `dns_failover_config_error`
unfoldable pub config_error : Config → Reading → String
unfolding record_type_supported missing missing_message resolve_contents
config_error c r =
    let contents = resolve_contents c r in
    let window = peak_window c r in
    if not c.enabled
    then ""
    else if not (record_type_supported c)
    then "当前仅支持 A、AAAA、CNAME 记录。"
    else missing_message (missing c) (
        if not (is_empty contents.error)
        then contents.error
        else if window.enabled && not window.configured
        then window.config_error
        else "")
