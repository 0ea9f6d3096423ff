-- ===== src/Routing/Manager/Route.antt =====
-- When AI domains are routed to the AI upstream at all.
use xray_routing_panel.Prelude.{
  String, ◌≡◌, Bool, true, false, not, ◌&&◌, none, some, List, [], ◌∷◌, arith, if◌then◌else◌, ltb,
  length,
}
use xray_routing_panel.Routing.Selector.{ProbeStatus, manual_selected, reachable, should_fallback}
use xray_routing_panel.Routing.Manager.{ManualMode, decide_route, is_forced, RouteStatus, applied}

-- The probes found the chosen target.
abbrev pub is_good : ProbeStatus → Bool
is_good reachable = true
is_good manual_selected = true
is_good _ = false

abbrev pub is_applied : RouteStatus → Bool
is_applied applied = true
is_applied _ = false

-- The cycle leaves a routing fragment exactly if some domain is an AI domain, the mode is not the
-- forced fall back, the chosen target was reachable and its probes had no error, and the proxy template
-- could be rendered. The fragment then holds all the AI domains, and the status says applied exactly
-- then.
pub decide_route_iff :
    (domains : List String) (mode : ManualMode) (probe_status : ProbeStatus) (template_ready : Bool)
    → let routed =
        ltb 0 (length domains) && not (is_forced mode) && is_good probe_status && template_ready in
      let (status, fragment) = decide_route domains mode probe_status template_ready in
      (fragment ≡ (if routed then some domains else none)) × (is_applied status ≡ routed)
unfolding decide_route should_fallback
decide_route_iff [] mode probe_status template_ready = ground arith
decide_route_iff (d ∷ ds) mode probe_status template_ready = ground arith
