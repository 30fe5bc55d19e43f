-- ===== src/Api/App/ReadRoutes.antt =====
-- Which exceptions leave the routes of drivers, riders and figures, and the look-up of a ride: app/api.
use realtime_ride_matching_e.Prelude.{ℕ, Option, none, some, List, [], ◌∷◌}
use realtime_ride_matching_e.Config.{Env}
use realtime_ride_matching_e.Floats.{Float}
use realtime_ride_matching_e.Models.{Driver, DriverStatus, RideStatus, Rider, Ride}
use realtime_ride_matching_e.Observability.Metrics.{MetricsSnapshot}
use realtime_ride_matching_e.Program.Commands.{
  Exn, Prog, driver_not_found, ride_not_found, database_error, raise,
}
use realtime_ride_matching_e.Program.Raises.{Raises, gives, throws, IsDatabaseError, raises_rules}
use realtime_ride_matching_e.Repositories.Drivers as DriverRepository
use realtime_ride_matching_e.Repositories.Rides as RideRepository
use realtime_ride_matching_e.Repositories.Riders as RiderRepository
use realtime_ride_matching_e.Pricing.{surge_of_zones, surge_by_zone}
use realtime_ride_matching_e.Api.Drivers
use realtime_ride_matching_e.Api.Rides
use realtime_ride_matching_e.Api.Stats
use realtime_ride_matching_e.Api.App.Kinds.{
  OfDriver, OfLookup, AllowsDatabase, commits, get_driver-Raises, get_ride-Raises, clock_or-Raises,
  zone_surge-Raises,
}

unknown_driver : {A : Type 0} → Raises OfDriver {A = A} (raise driver_not_found)
unknown_driver = throws driver_not_found tt

or_not_found-Raises : (found : Option Driver) → Raises OfDriver (Drivers.or_not_found found)
or_not_found-Raises none = unknown_driver
or_not_found-Raises (some d) = gives d

module _ {E : Exn → Type 0} (db : AllowsDatabase E) where
  commit_and_refresh-Raises : (id : ℕ) → Raises E (Drivers.commit_and_refresh id)
  unfolding Drivers.commit_and_refresh
  commit_and_refresh-Raises id =
      let gone : Raises E {A = Driver} (raise database_error) = throws database_error db.1 in
      commits db _ (search (raises_rules, get_driver-Raises, gone))

module _ {E : Exn → Type 0} where
  create-Raises :
      (lat lng : Float) (h3_index zone_id : ℕ) (status : DriverStatus)
      → Raises E (DriverRepository.create lat lng h3_index zone_id status)
  unfolding DriverRepository.create
  create-Raises lat lng h3_index zone_id status = search raises_rules depth 10

  update_location-Raises :
      (id : ℕ) (lat lng : Float) (h3_index zone_id : ℕ)
      → Raises E (DriverRepository.update_location id lat lng h3_index zone_id)
  unfolding DriverRepository.update_location
  update_location-Raises id lat lng h3_index zone_id =
      search (raises_rules, get_driver-Raises) depth 10

  pub list_drivers-Raises : (status : Option DriverStatus) → Raises E (Drivers.list_drivers status)
  unfolding Drivers.list_drivers DriverRepository.list_all DriverRepository.list_by_status
  list_drivers-Raises none = search raises_rules
  list_drivers-Raises (some status) = search raises_rules

  surge_of_zones-Raises :
      (env : Env) (at : ℕ) (zones : List ℕ) → Raises E (surge_of_zones env at zones)
  unfolding surge_of_zones
  surge_of_zones-Raises env at [] = gives []
  surge_of_zones-Raises env at (zone ∷ zones) =
      search (raises_rules, zone_surge-Raises, surge_of_zones-Raises env at zones) depth 8

  surge_by_zone-Raises : (env : Env) (pinned : Option ℕ) → Raises E (surge_by_zone env pinned)
  unfolding surge_by_zone RideRepository.list_recent_zone_ids
  surge_by_zone-Raises env pinned =
      search (raises_rules, clock_or-Raises, surge_of_zones-Raises) depth 8

  count_rides-Raises : (st : RideStatus) → Raises E (RideRepository.count_by_status st)
  unfolding RideRepository.count_by_status
  count_rides-Raises st = search raises_rules

  count_drivers-Raises : (st : DriverStatus) → Raises E (DriverRepository.count_by_status st)
  unfolding DriverRepository.count_by_status
  count_drivers-Raises st = search raises_rules

  count_active-Raises : Raises E Stats.count_active_rides
  unfolding Stats.count_active_rides
  count_active-Raises = search (raises_rules, count_rides-Raises) depth 8

  pub get_stats-Raises :
      (env : Env) (metrics : MetricsSnapshot) (latencies : Float × Float × Float)
      → Raises E (Stats.get_stats env metrics latencies)
  unfolding Stats.get_stats
  get_stats-Raises env metrics latencies =
      search
        (
          raises_rules, count_active-Raises, surge_by_zone-Raises, count_rides-Raises,
          count_drivers-Raises,
        )
        depth 16

pub create_driver-Raises :
    (env : Env) (lat lng : Float) → Raises IsDatabaseError (Drivers.create_driver env lat lng)
unfolding Drivers.create_driver
create_driver-Raises env lat lng =
    search (raises_rules, create-Raises, commit_and_refresh-Raises {E = IsDatabaseError} (tt, tt))
      depth 8

pub update_location_route-Raises :
    (env : Env) (id : ℕ) (lat lng : Float)
    → Raises OfDriver (Drivers.update_driver_location env id lat lng)
unfolding Drivers.update_driver_location
update_location_route-Raises env id lat lng =
    search
      (
        raises_rules,
        update_location-Raises,
        or_not_found-Raises,
        commit_and_refresh-Raises {E = OfDriver} (tt, tt),
      )
      depth 8

pub create_rider-Raises : (lat lng : Float) → Raises IsDatabaseError (Drivers.create_rider lat lng)
unfolding Drivers.create_rider RiderRepository.create
create_rider-Raises lat lng =
    let gone : Raises IsDatabaseError {A = Rider} (raise database_error) =
      throws database_error tt in
    search
      (
        raises_rules,
        gone,
        λ (A : Type 0) (rest : Prog A). commits {E = IsDatabaseError} (tt, tt) {A = A} rest,
      )
      depth 12

pub get_driver_route-Raises : (id : ℕ) → Raises OfDriver (Drivers.get_driver id)
unfolding Drivers.get_driver
get_driver_route-Raises id = search (raises_rules, get_driver-Raises, or_not_found-Raises)

pub get_ride_route-Raises : (id : ℕ) → Raises OfLookup (Rides.get_ride id)
unfolding Rides.get_ride
get_ride_route-Raises id =
    let missing : Raises OfLookup {A = Ride} (raise ride_not_found) = throws ride_not_found tt in
    search (raises_rules, get_ride-Raises, missing)
