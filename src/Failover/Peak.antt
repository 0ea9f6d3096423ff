-- ===== src/Failover/Peak.antt =====
-- The peak window of app/state/dns_failover.py: its configuration, its test, its next boundary.
-- Times of day are in minutes, and the current one also in seconds.
pub mod Laws
use xray_routing_panel.Prelude.{
  ℕ, ◌+◌, ◌-◌, ◌*◌, ◌/◌, ◌%◌, Bool, true, false, ◌&&◌, ◌||◌, Option, none, some, String, ℤ, pos,
  negsuc, ltb, leb, ◌==◌, if◌then◌else◌, is_empty, strip, partition, python_int, str_append,
}

-- `parse_time_of_day_minutes`, on the two integers
minutes_of : Option ℤ → Option ℤ → Option ℕ
minutes_of (some (pos hour)) (some (pos minute)) =
    if ltb 23 hour || ltb 59 minute then none else some (hour * 60 + minute)
minutes_of _ _ = none

unfoldable pub parse_time_of_day_minutes : String → Option ℕ
unfolding minutes_of python_int strip
parse_time_of_day_minutes value =
    let text = strip value in
    let (hour_text, minute_text) = partition b':' text in
    if is_empty text then none else minutes_of (python_int hour_text) (python_int minute_text)

-- `peak_window_active`
unfoldable pub peak_window_active : ℕ → ℕ → ℕ → Bool
peak_window_active current_minutes start_minutes end_minutes =
    if ltb start_minutes end_minutes
    then leb start_minutes current_minutes && ltb current_minutes end_minutes
    else leb start_minutes current_minutes || ltb current_minutes end_minutes

pub data Target : Type 0 where
  primary backup : Target

pub record PeakWindow : Type 0 where
  pub enabled : Bool
  pub configured : Bool
  pub active : Bool
  pub preferred_target : Target
  pub next_preferred_target : Option Target
  pub seconds_to_next_transition : ℕ
  pub config_error : String

-- `delta_seconds`: `(boundary * 60 - current) % 86400 or 86400`
unfoldable pub seconds_to_boundary : ℕ → ℕ → ℕ
seconds_to_boundary current_seconds boundary =
    let delta = (boundary * 60 + 86400 - current_seconds) % 86400 in
    if delta == 0 then 86400 else delta

-- The end of `dns_failover_peak_window_status`, from the times and the local clock.
unfoldable pub open_window : ℕ → ℕ → ℕ → PeakWindow
unfolding peak_window_active seconds_to_boundary
open_window start_minutes end_minutes current_seconds =
    let active = peak_window_active (current_seconds / 60) start_minutes end_minutes in
    record {
      enabled = true;
      configured = true;
      active = active;
      preferred_target = if active then backup else primary;
      next_preferred_target = some (if active then primary else backup);
      seconds_to_next_transition =
          seconds_to_boundary current_seconds (if active then end_minutes else start_minutes);
      config_error = "";
    }

-- The status before the window is known: with the configuration's error, if it is enabled.
abbrev pub closed_window : Bool → String → PeakWindow
closed_window enabled config_error = record {
  enabled = enabled;
  configured = false;
  active = false;
  preferred_target = primary;
  next_preferred_target = none;
  seconds_to_next_transition = 0;
  config_error = config_error;
}

-- What `resolve_dns_failover_peak_timezone` and `astimezone` give: the local seconds of the day,
-- or the message of the `ValidationError`.
pub data LocalClock : Type 0 where
  at : ℕ → LocalClock
  unknown_zone : String → LocalClock

window_from : Option ℕ → Option ℕ → LocalClock → PeakWindow
unfolding open_window
window_from (some start_minutes) (some end_minutes) clock =
    if start_minutes == end_minutes
    then closed_window true "DNS_FAILOVER_PEAK_START 与 DNS_FAILOVER_PEAK_END 不能相同。"
    else elim clock [
      | at current_seconds ↦ open_window start_minutes end_minutes current_seconds
      | unknown_zone message ↦ closed_window true message
    ]
window_from _ _ clock = closed_window true "缺少有效的 DNS_FAILOVER_PEAK_START / DNS_FAILOVER_PEAK_END。"

-- `dns_failover_peak_window_status`
unfoldable pub peak_window_status : Bool → String → String → LocalClock → PeakWindow
unfolding window_from parse_time_of_day_minutes
peak_window_status enabled start end_ clock =
    if enabled
    then window_from (parse_time_of_day_minutes start) (parse_time_of_day_minutes end_) clock
    else closed_window false ""
