-- ===== src/Workers/Requests.antt =====
-- Whatever a worker is asked for, it issues lawful commands only.
use realtime_ride_matching_e.Prelude.{ℕ, Option, none, some, List, [], ◌∷◌}
use realtime_ride_matching_e.Config.{Env}
use realtime_ride_matching_e.Floats.{Float}
use realtime_ride_matching_e.Models.{Driver, DriverStatus, RideStatus}
use realtime_ride_matching_e.Observability.Metrics.{MetricsSnapshot}
use realtime_ride_matching_e.Program.Commands.{Prog, ret, ◌>>◌}
use realtime_ride_matching_e.Program.Issues.{Issues, by_ret, Issues-bind, issues_rules}
use realtime_ride_matching_e.Pricing.{surge_of_zones, surge_by_zone}
use realtime_ride_matching_e.Lifecycle.{IsLawful}
use realtime_ride_matching_e.Lifecycle.Issued.{
  clock_or-IsLawful, zone_surge-IsLawful, request_ride-IsLawful, cancel_ride-IsLawful,
  complete_ride-IsLawful,
}
use realtime_ride_matching_e.Lifecycle.MatchIssued.{
  IsLawfulProg, get_driver-IsLawful, get_ride-IsLawful,
}
use realtime_ride_matching_e.Repositories.Drivers as DriverRepository
use realtime_ride_matching_e.Repositories.Rides as RideRepository
use realtime_ride_matching_e.Repositories.Riders as RiderRepository
use realtime_ride_matching_e.Api.Drivers
use realtime_ride_matching_e.Api.Rides
use realtime_ride_matching_e.Api.Stats
use realtime_ride_matching_e.Workers.{
  IsRequest, requests_ride, cancels_ride, completes_ride, reads_ride, creates_driver, moves_driver,
  reads_driver, lists_drivers, creates_rider, reads_stats, reads_surge,
}

ruleset parts =
    (issues_rules, get_driver-IsLawful, get_ride-IsLawful, clock_or-IsLawful, zone_surge-IsLawful)

reads_ride-IsLawful : (id : ℕ) → IsLawfulProg (Rides.get_ride id)
unfolding Rides.get_ride
reads_ride-IsLawful id = search parts depth 8

or_not_found-IsLawful : (found : Option Driver) → IsLawfulProg (Drivers.or_not_found found)
or_not_found-IsLawful none = search issues_rules
or_not_found-IsLawful (some d) = by_ret d

commit_and_refresh-IsLawful : (id : ℕ) → IsLawfulProg (Drivers.commit_and_refresh id)
unfolding Drivers.commit_and_refresh
commit_and_refresh-IsLawful id = search parts depth 8

create-IsLawful :
    (lat lng : Float) (h3_index zone_id : ℕ) (status : DriverStatus)
    → IsLawfulProg (DriverRepository.create lat lng h3_index zone_id status)
unfolding DriverRepository.create
create-IsLawful lat lng h3_index zone_id status = search issues_rules depth 10

creates_driver-IsLawful :
    (env : Env) (lat lng : Float) → IsLawfulProg (Drivers.create_driver env lat lng)
unfolding Drivers.create_driver
creates_driver-IsLawful env lat lng =
    search (issues_rules, create-IsLawful, commit_and_refresh-IsLawful) depth 8

update_location-IsLawful :
    (id : ℕ) (lat lng : Float) (h3_index zone_id : ℕ)
    → IsLawfulProg (DriverRepository.update_location id lat lng h3_index zone_id)
unfolding DriverRepository.update_location
update_location-IsLawful id lat lng h3_index zone_id = search parts depth 10

moves_driver-IsLawful :
    (env : Env) (id : ℕ) (lat lng : Float)
    → IsLawfulProg (Drivers.update_driver_location env id lat lng)
unfolding Drivers.update_driver_location
moves_driver-IsLawful env id lat lng =
    search
      (issues_rules, update_location-IsLawful, or_not_found-IsLawful, commit_and_refresh-IsLawful)
      depth 10

reads_driver-IsLawful : (id : ℕ) → IsLawfulProg (Drivers.get_driver id)
unfolding Drivers.get_driver
reads_driver-IsLawful id = search (parts, or_not_found-IsLawful) depth 8

lists_drivers-IsLawful : (status : Option DriverStatus) → IsLawfulProg (Drivers.list_drivers status)
unfolding Drivers.list_drivers DriverRepository.list_all DriverRepository.list_by_status
lists_drivers-IsLawful none = search issues_rules
lists_drivers-IsLawful (some status) = search issues_rules

creates_rider-IsLawful : (lat lng : Float) → IsLawfulProg (Drivers.create_rider lat lng)
unfolding Drivers.create_rider RiderRepository.create
creates_rider-IsLawful lat lng = search issues_rules depth 14

surge_of_zones-IsLawful :
    (env : Env) (at : ℕ) (zones : List ℕ) → IsLawfulProg (surge_of_zones env at zones)
unfolding surge_of_zones
surge_of_zones-IsLawful env at [] = by_ret []
surge_of_zones-IsLawful env at (zone ∷ zones) =
    search (parts, surge_of_zones-IsLawful env at zones) depth 8

surge_by_zone-IsLawful : (env : Env) (at : Option ℕ) → IsLawfulProg (surge_by_zone env at)
unfolding surge_by_zone RideRepository.list_recent_zone_ids
surge_by_zone-IsLawful env at = search (parts, surge_of_zones-IsLawful) depth 8

count_rides-IsLawful : (status : RideStatus) → IsLawfulProg (RideRepository.count_by_status status)
unfolding RideRepository.count_by_status
count_rides-IsLawful status = search issues_rules

count_drivers-IsLawful :
    (status : DriverStatus) → IsLawfulProg (DriverRepository.count_by_status status)
unfolding DriverRepository.count_by_status
count_drivers-IsLawful status = search issues_rules

active-IsLawful : IsLawfulProg Stats.count_active_rides
unfolding Stats.count_active_rides
active-IsLawful = search (issues_rules, count_rides-IsLawful) depth 10

reads_stats-IsLawful :
    (env : Env) (metrics : MetricsSnapshot) (latencies : Float × Float × Float)
    → IsLawfulProg (Stats.get_stats env metrics latencies)
unfolding Stats.get_stats
reads_stats-IsLawful env metrics latencies =
    search
      (
        issues_rules, count_rides-IsLawful, count_drivers-IsLawful, active-IsLawful,
        surge_by_zone-IsLawful,
      )
      depth 16

-- The whole request, whose answer the worker drops.
answered-IsLawful : {A : Type 0} (m : Prog A) → IsLawfulProg m → IsLawfulProg (m >> ret tt)
answered-IsLawful m h = Issues-bind m (λ _. ret tt) h (λ _. by_ret tt)

pub IsRequest-IsLawful : (env : Env) {m : Prog (Unit {0})} → IsRequest env m → Issues IsLawful m
unfolding Stats.get_zone_surge Rides.cancel_ride_endpoint Rides.complete_ride_endpoint
IsRequest-IsLawful env (requests_ride req) = answered-IsLawful _ (request_ride-IsLawful env req)
IsRequest-IsLawful env (cancels_ride id) = answered-IsLawful _ (cancel_ride-IsLawful id)
IsRequest-IsLawful env (completes_ride id) = answered-IsLawful _ (complete_ride-IsLawful id)
IsRequest-IsLawful env (reads_ride id) = answered-IsLawful _ (reads_ride-IsLawful id)
IsRequest-IsLawful env (creates_driver lat lng) =
    answered-IsLawful _ (creates_driver-IsLawful env lat lng)
IsRequest-IsLawful env (moves_driver id lat lng) =
    answered-IsLawful _ (moves_driver-IsLawful env id lat lng)
IsRequest-IsLawful env (reads_driver id) = answered-IsLawful _ (reads_driver-IsLawful id)
IsRequest-IsLawful env (lists_drivers status) = answered-IsLawful _ (lists_drivers-IsLawful status)
IsRequest-IsLawful env (creates_rider lat lng) =
    answered-IsLawful _ (creates_rider-IsLawful lat lng)
IsRequest-IsLawful env (reads_stats metrics latencies) =
    answered-IsLawful _ (reads_stats-IsLawful env metrics latencies)
IsRequest-IsLawful env (reads_surge zone) = answered-IsLawful _ (zone_surge-IsLawful env zone none)
