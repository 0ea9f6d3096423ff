-- ===== src/Routing/Manager.antt =====
-- One cycle of app/xray/ai_routing/manager.py: which route it decides on, and how the configuration
-- that it renders reaches the data plane.
pub mod Apply
pub mod Route
use xray_routing_panel.Prelude.{
  ℕ, String, Bool, true, false, not, ◌&&◌, ◌||◌, Option, none, some, List, [], ◌∷◌, if◌then◌else◌,
  str_eq, Result, ok, err, Error, runtime_error, Exec,
}
use xray_routing_panel.Routing.Selector.{
  ProbeStatus, probe_error, manual_unreachable, should_fallback,
}

-- `ai_routing_manual_mode`
pub data ManualMode : Type 0 where
  auto primary backup forced_fallback : ManualMode

abbrev pub is_forced : ManualMode → Bool
is_forced forced_fallback = true
is_forced _ = false

abbrev pub names_target : ManualMode → Bool
names_target primary = true
names_target backup = true
names_target _ = false

pub data RouteStatus : Type 0 where
  manual_fallback manual_target_unreachable fallback_to_primary route_probe_error : RouteStatus
  pending_proxy_template applied no_ai_domains idle : RouteStatus

-- The dynamic routing fragment: absent, or the domains that go to the AI upstream.
abbrev pub Fragment : Type 0
Fragment = Option (List String)

abbrev is_probe_error : ProbeStatus → Bool
is_probe_error probe_error = true
is_probe_error _ = false

abbrev is_manual_unreachable : ProbeStatus → Bool
is_manual_unreachable manual_unreachable = true
is_manual_unreachable _ = false

-- `write_routing_fragment`, which is called with at least one domain
abbrev write_fragment : List String → RouteStatus × Fragment
write_fragment [] = (no_ai_domains, none)
write_fragment (d ∷ ds) = (applied, some (d ∷ ds))

-- The branches on `ai_domains`, the mode and the probes. `template_ready` is false if
-- `render_proxy_template` gives no payload.
unfoldable pub decide_route : List String → ManualMode → ProbeStatus → Bool → RouteStatus × Fragment
unfolding should_fallback
decide_route [] mode probe_status template_ready =
    (if is_forced mode then manual_fallback else idle, none)
decide_route (d ∷ ds) mode probe_status template_ready =
    if is_forced mode
    then (manual_fallback, none)
    else if should_fallback probe_status || is_manual_unreachable probe_status
    then (if names_target mode then manual_target_unreachable else fallback_to_primary, none)
    else if is_probe_error probe_status
    then (route_probe_error, none)
    else if template_ready
    then write_fragment (d ∷ ds)
    else (pending_proxy_template, none)

-- The rendered configuration on disk, the marker `.pending-apply`, and the configuration that the data
-- plane runs.
pub record Runtime : Type 0 where
  pub config : String
  pub is_pending : Bool
  pub running : String

-- What one cycle meets: the text that the rendering leaves on disk, what fails, and how the data plane
-- is managed. A restart_xray that fails may leave any configuration running.
pub record CycleWorld : Type 0 where
  pub config_after : String
  pub render_fails : Bool
  pub is_managed : Bool
  pub supports_sync : Bool
  pub sync_fails : Bool
  pub remote_changed : Bool
  pub external_reloader : Bool
  pub supports_restart : Bool
  pub has_restart_command : Bool
  pub has_restart_container : Bool
  pub restart_fails : Bool
  pub running_after_failure : String
  pub has_manual_override : Bool

pub data ApplyStatus : Type 0 where
  not_needed delegated direct unchanged unmanaged : ApplyStatus

unfoldable pub touch_if : Bool → Runtime → Runtime
touch_if b s = record s { is_pending = s.is_pending || b }

-- A restart_xray: on success the data plane runs the file and the marker goes.
unfoldable pub restart_xray : CycleWorld → Exec Runtime ApplyStatus
restart_xray w s =
    if w.restart_fails
    then (
      err (runtime_error "AI 路由配置重载失败，保留待应用状态以便重试。"),
      record s { running = w.running_after_failure },
    )
    else (ok direct, record s { running = s.config; is_pending = false })

-- A data plane that the controller manages; `changed` is `config_changed or pending_apply`
unfoldable pub apply_managed : CycleWorld → Bool → Exec Runtime ApplyStatus
unfolding restart_xray touch_if
apply_managed w changed s =
    let needed = changed || w.supports_sync && w.remote_changed in
    let s' = touch_if needed s in
    if w.supports_sync && w.sync_fails
    then (err (runtime_error "sync"), s)
    else if needed && w.external_reloader
    then (ok delegated, s')
    else if needed && not w.supports_restart
    then (err (runtime_error "AI 路由配置重载失败，保留待应用状态以便重试。"), s')
    else if needed
    then restart_xray w s'
    else (ok unchanged, record s' { is_pending = false })

-- The other branches: a restart_xray command, a container, the external reloader, or nothing.
unfoldable pub apply_unmanaged : CycleWorld → Bool → Exec Runtime ApplyStatus
unfolding restart_xray
apply_unmanaged w changed s =
    if changed && (w.has_restart_command || w.has_restart_container) && not w.external_reloader
    then restart_xray w s
    else if not changed
    then (ok not_needed, s)
    else if w.external_reloader
    then (ok delegated, s)
    else if w.has_manual_override
    then (err (runtime_error "AI 路由配置重载未配置，保留待应用状态以便重试。"), s)
    else (ok unmanaged, record s { is_pending = false })

-- From the rendering to the end of the apply in `_run_once_locked`.
unfoldable pub apply_cycle : CycleWorld → Exec Runtime ApplyStatus
unfolding apply_managed apply_unmanaged touch_if
apply_cycle w s =
    let config_changed = not (str_eq w.config_after s.config) in
    let changed = config_changed || s.is_pending in
    let s' = touch_if changed (record s { config = w.config_after }) in
    if w.render_fails
    then (err (runtime_error "render"), s')
    else if w.is_managed
    then apply_managed w changed s'
    else apply_unmanaged w changed s'

-- Cycles one after another; what one returns or raises does not stop the next.
unfoldable pub run_cycles : List CycleWorld → Runtime → Runtime
unfolding apply_cycle
run_cycles [] s = s
run_cycles (w ∷ ws) s = run_cycles ws (apply_cycle w s).1
