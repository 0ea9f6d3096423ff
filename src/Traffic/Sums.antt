-- ===== src/Traffic/Sums.antt =====
-- The sums of the two traffic tables, by port, and what the upserts do to them.
use xray_routing_panel.Prelude.{ℕ, ◌+◌, ◌≡◌, List, [], ◌∷◌, arith, ◌==◌, if◌then◌else◌}
use xray_routing_panel.Database.Tables.{Total, Daily}
use xray_routing_panel.Traffic.{upsert_total, upsert_daily}

-- The three columns that both tables count.
pub data Measure : Type 0 where
  connections sent received : Measure

abbrev pub total_value : Measure → Total → ℕ
total_value connections t = t.total_connections
total_value sent t = t.total_bytes_sent
total_value received t = t.total_bytes_received

abbrev pub daily_value : Measure → Daily → ℕ
daily_value connections d = d.total_connections
daily_value sent d = d.total_bytes_sent
daily_value received d = d.total_bytes_received

module _ (m : Measure) (port : ℕ) where
  -- The port's row of `traffic_totals`, 0 without one.
  unfoldable pub total_of : List Total → ℕ
  total_of [] = 0
  total_of (t ∷ ts) = if t.listen_port == port then total_value m t else total_of ts

  -- The sum over the port's rows of `traffic_daily`.
  unfoldable pub daily_sum : List Daily → ℕ
  daily_sum [] = 0
  daily_sum (d ∷ ds) = (if d.listen_port == port then daily_value m d else 0) + daily_sum ds

  pub total_of-upsert :
      (new : Total) (ts : List Total)
      → total_of (upsert_total new ts)
        ≡ total_of ts + (if new.listen_port == port then total_value m new else 0)
  unfolding total_of upsert_total
  total_of-upsert new [] = ground arith
  total_of-upsert new (t ∷ ts) = ground (arith, total_of-upsert new ts)

  pub daily_sum-upsert :
      (new : Daily) (ds : List Daily)
      → daily_sum (upsert_daily new ds)
        ≡ daily_sum ds + (if new.listen_port == port then daily_value m new else 0)
  unfolding daily_sum upsert_daily
  daily_sum-upsert new [] = ground arith
  daily_sum-upsert new (d ∷ ds) = ground (arith, daily_sum-upsert new ds)
