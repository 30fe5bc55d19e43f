-- ===== src/Api/Stats.antt =====
-- app/api/stats.py and app/api/zones.py
use realtime_ride_matching_e.Prelude.{ℕ, ◌+◌, none, List}
use realtime_ride_matching_e.Floats.{Float}
use realtime_ride_matching_e.Config.{Env}
use realtime_ride_matching_e.Models.{
  available, busy, requested, matched, in_progress, completed, cancelled,
}
use realtime_ride_matching_e.Observability.Metrics.{MetricsSnapshot}
use realtime_ride_matching_e.Program.Commands.{Prog, ret, ◌>>=◌}
use realtime_ride_matching_e.Repositories.Drivers
use realtime_ride_matching_e.Repositories.Rides
use realtime_ride_matching_e.Pricing.{SurgeResult, zone_surge, surge_by_zone}

-- StatsResponse; the two trackers are read beside the session, so their readings are arguments.
pub record StatsResponse : Type 0 where
  pub available_drivers : ℕ
  pub busy_drivers : ℕ
  pub active_rides : ℕ
  pub completed_rides : ℕ
  pub cancelled_rides : ℕ
  pub metrics : MetricsSnapshot
  pub surge_by_zone : List SurgeResult
  pub db_latencies : Float × Float × Float

unfoldable pub count_active_rides : Prog ℕ
count_active_rides = do
  r ← Rides.count_by_status requested
  m ← Rides.count_by_status matched
  p ← Rides.count_by_status in_progress
  ret (r + m + p)

unfoldable pub get_stats : Env → MetricsSnapshot → ℕ × ℕ × ℕ → Prog StatsResponse
get_stats env metrics db_latencies = do
  active_rides ← count_active_rides
  zones ← surge_by_zone env none
  available_drivers ← Drivers.count_by_status available
  busy_drivers ← Drivers.count_by_status busy
  completed_rides ← Rides.count_by_status completed
  cancelled_rides ← Rides.count_by_status cancelled
  ret (record {
    available_drivers = available_drivers;
    busy_drivers = busy_drivers;
    active_rides = active_rides;
    completed_rides = completed_rides;
    cancelled_rides = cancelled_rides;
    metrics = metrics;
    surge_by_zone = zones;
    db_latencies = db_latencies;
  })

unfoldable pub get_zone_surge : Env → ℕ → Prog SurgeResult
get_zone_surge env zone_id = zone_surge env zone_id none
