-- ===== src/Ports/Status.antt =====
-- `status_payload` of app/helpers.py: the one status that every view of a port shows.
use xray_routing_panel.Prelude.{ℕ, Bool, true, false, Option, none, some, leb, if◌then◌else◌, List}
use xray_routing_panel.Database.Tables.{Port, Total}
use xray_routing_panel.Ports.{usage_bytes, is_expired}

pub data Status : Type 0 where
  expired quota active disabled : Status

-- `traffic_limit_bytes is not None and usage_bytes >= int(traffic_limit_bytes)`
abbrev pub quota_reached : Option ℕ → ℕ → Bool
quota_reached none usage = false
quota_reached (some limit) usage = leb limit usage

-- `status_payload`, its code
unfoldable pub status_payload : Bool → Option ℕ → Option ℕ → ℕ → ℕ → Status
status_payload enabled expires_at traffic_limit_bytes traffic_usage_bytes now =
    if is_expired expires_at now
    then expired
    else if quota_reached traffic_limit_bytes traffic_usage_bytes
    then quota
    else if enabled
    then active
    else disabled

-- The status of a row, as `serialize_port_row` and the two subscription records compute it.
unfoldable pub port_status : ℕ → List Total → Port → Status
unfolding status_payload
port_status now totals p =
    status_payload p.enabled p.expires_at p.traffic_limit_bytes (usage_bytes p.listen_port totals)
      now

abbrev pub is_active : Status → Bool
is_active active = true
is_active _ = false
