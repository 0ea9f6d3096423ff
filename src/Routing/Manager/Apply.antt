-- ===== src/Routing/Manager/Apply.antt =====
-- No configuration is lost on its way to the data plane: the marker `.pending-apply`.
use xray_routing_panel.Prelude.{
  ◌≡◌, refl, ◌⊎◌, inl, inr, Bool, true, false, not, ◌&&◌, ◌||◌, if◌then◌else◌, Bool-cases, str_eq,
}
use xray_routing_panel.Routing.Manager.{Runtime, CycleWorld, touch_if, restart_xray}

-- The data plane runs what is on disk, or the marker says that it has to.
unfoldable pub IsTracked : Runtime → Type 0
IsTracked s = (s.is_pending ≡ true) ⊎ (s.running ≡ s.config)

-- Something reloads the data plane.
abbrev pub is_reloaded : CycleWorld → Bool
is_reloaded w =
    w.is_managed || w.has_restart_command || w.has_restart_container || w.external_reloader

restart_xray-IsTracked :
    (w : CycleWorld) (s : Runtime) → s.is_pending ≡ true → IsTracked (restart_xray w s).1
unfolding restart_xray IsTracked
restart_xray-IsTracked w s h = elim (Bool-cases w.restart_fails) [
  | inl e ↦ rw e (inl h)
  | inr e ↦ rw e (inr refl)
]

-- The configuration that the rendering left, with the marker if it has to be applied.
abbrev rendered : CycleWorld → Runtime → Runtime
rendered w s =
    touch_if (not (str_eq w.config_after s.config) || s.is_pending)
      (record s { config = w.config_after })

-- A cycle in which nothing fails, and which restarts the data plane itself.
abbrev pub works : CycleWorld → Bool
works w =
    not w.render_fails
    && not w.restart_fails
    && not w.external_reloader
    && (if w.is_managed
        then w.supports_restart && not w.sync_fails
        else w.has_restart_command || w.has_restart_container)

-- The data plane runs the file, and no marker is left.
abbrev IsLive : Runtime → Runtime → Type 0
IsLive before after =
    (after.running ≡ before.config) × (after.config ≡ before.config) × (after.is_pending ≡ false)
