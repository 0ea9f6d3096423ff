-- ===== src/Failover/Peak/Laws.antt =====
-- The peak window of app/state/dns_failover.py over the day.
use xray_routing_panel.Prelude.{ℕ, ◌+◌, ◌-◌, ◌*◌, ◌%◌, ◌≤◌, ◌<◌, ◌≡◌, ◌≢◌, not, arith, ltb}
use xray_routing_panel.Failover.Peak.{peak_window_active, open_window, seconds_to_boundary}

-- Between minutes of the day and for a start that is not the end, the window is active exactly on
-- the arc that runs forward from its start to before its end, past midnight if need be.
pub peak_window_active-circular :
    (current start end_ : ℕ)
    → current < 1440
    → start < 1440
    → end_ < 1440
    → start ≢ end_
    → peak_window_active current start end_
      ≡ ltb ((current + 1440 - start) % 1440) ((end_ + 1440 - start) % 1440)
unfolding peak_window_active
peak_window_active-circular current start end_ hc hs he ne = ground arith

-- From a second of the day, the announced wait for a boundary is positive, at most a day, and ends
-- at the boundary's minute.
pub seconds_to_boundary_bounds :
    (current boundary : ℕ)
    → current < 86400
    → boundary < 1440
    → (0 < seconds_to_boundary current boundary)
      × (seconds_to_boundary current boundary ≤ 86400)
      × ((current + seconds_to_boundary current boundary) % 86400 ≡ boundary * 60)
unfolding seconds_to_boundary
seconds_to_boundary_bounds current boundary hc hb = ground arith

module _ (start end_ current : ℕ) (hs : start < 1440) (he : end_ < 1440) (hc : current < 86400)
    (ne : start ≢ end_) where
  -- Until the announced transition the window stays as it is, for a start and an end that differ.
  pub window-constant :
      (d : ℕ)
      → d < (open_window start end_ current).seconds_to_next_transition
      → (open_window start end_ ((current + d) % 86400)).active
        ≡ (open_window start end_ current).active
  unfolding open_window
  window-constant d h = ground arith

  -- At the announced transition the window changes, for a start and an end that differ.
  pub window-flips :
      (open_window start end_
        ((current + (open_window start end_ current).seconds_to_next_transition) % 86400)).active
      ≡ not (open_window start end_ current).active
  unfolding open_window
  window-flips = ground arith
