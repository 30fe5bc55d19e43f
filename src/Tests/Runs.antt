-- ===== src/Tests/Runs.antt =====
-- Runs to their end.
use realtime_ride_matching_e.Prelude.{[], ◌∷◌, ℕ, Option, none, some, ◌≡◌, refl}
use realtime_ride_matching_e.Models.{Ride}
use realtime_ride_matching_e.Redis.{holder, without, set_nx_px, compare_and_delete}
use realtime_ride_matching_e.Observability.Events.{publish}
use realtime_ride_matching_e.Observability.Metrics.{record_contention}
use realtime_ride_matching_e.Program.Commands.{Result, ok, err, ◌>>=◌, finally, attempt}
use realtime_ride_matching_e.Program.Exec.{run}
use realtime_ride_matching_e.Program.Effects.{effect}
use realtime_ride_matching_e.Tests.Reference.{reliable, deaf}
use realtime_ride_matching_e.Storage.Constraints.{violates_unique, clashes, both_active}
use realtime_ride_matching_e.Config.{default_settings}
use realtime_ride_matching_e.Repositories.Drivers
use realtime_ride_matching_e.Repositories.Rides
use realtime_ride_matching_e.Matching.Geo.{cells_within_ring, latlng_to_h3}
use realtime_ride_matching_e.Matching.Ranking.{measured, rank_candidates}
use realtime_ride_matching_e.Matching.CandidateSearch.{search_rings, find_ranked_candidates}
use realtime_ride_matching_e.Matching.DriverLock.{acquire_lock, release_lock}
use realtime_ride_matching_e.Matching.Matcher.{
  take_driver, assign_candidate, try_candidates, match_ride,
}
use realtime_ride_matching_e.Program.Cases.{started}
use realtime_ride_matching_e.Program.Effects.{insert_checked, flushed, load_ride}
use realtime_ride_matching_e.Storage.Constraints.{accepts_insert, rider_exists, id_taken}
use realtime_ride_matching_e.Matching.Geo.{zone_id_for_point}
use realtime_ride_matching_e.Pricing.{zone_surge, surge_multiplier}
use realtime_ride_matching_e.RideService.{
  create_ride, create_new, find_existing, insert_and_commit, recover,
}
use realtime_ride_matching_e.RideService.Inserting.{new_ride}
use realtime_ride_matching_e.Tests.FixedFloats.{fixed}
use realtime_ride_matching_e.Tests.Samples.{
  quiet_world, near_driver, far_driver, second, city, waiting_ride, city_world, clash_world,
}
use realtime_ride_matching_e.Program.Commands.{redis_connection_error, integrity_error}
use realtime_ride_matching_e.Models.{matched}
use realtime_ride_matching_e.RideService.{status_of}
use realtime_ride_matching_e.Storage.Tables.{find_ride}

abbrev driver_of : Result Ride → Option ℕ
driver_of (ok r) = r.driver_id
driver_of (err e) = none

-- The nearer driver is locked by another worker: the ride goes to the other one. If the reply to the
-- release is lost, the caller gets an exception, and the ride is matched. If the index on active rides
-- refuses the assignment, the exception ends the search.
match_ride-runs :
    (driver_of (run (match_ride city waiting_ride) city_world).0 ≡ some 2)
    × ((run ⦃p = deaf⦄ (match_ride city waiting_ride) city_world).0 ≡ err redis_connection_error)
    × (status_of
          (find_ride (run ⦃p = deaf⦄ (match_ride city waiting_ride) city_world).1.shared.db 10)
        ≡ some matched)
    × ((run (match_ride city waiting_ride) clash_world).0 ≡ err integrity_error)
unfolding match_ride try_candidates assign_candidate take_driver run effect ◌>>=◌ finally attempt
    acquire_lock release_lock find_ranked_candidates search_rings rank_candidates cells_within_ring
    latlng_to_h3 holder without set_nx_px compare_and_delete publish record_contention
    violates_unique clashes both_active default_settings Drivers.list_available_in_cells
    Drivers.get_by_id Rides.transition_status
match_ride-runs = (refl, refl, refl, refl)

-- Its lock is still there when the match is over.
pub foreign_lock_kept :
    holder
      (run (match_ride city waiting_ride) city_world).1.shared.clock
      1
      (run (match_ride city waiting_ride) city_world).1.shared.locks
    ≡ some 900
unfolding match_ride try_candidates assign_candidate take_driver run effect ◌>>=◌ finally attempt
    acquire_lock release_lock find_ranked_candidates search_rings rank_candidates cells_within_ring
    latlng_to_h3 holder without set_nx_px compare_and_delete publish record_contention
    violates_unique clashes both_active default_settings Drivers.list_available_in_cells
    Drivers.get_by_id Rides.transition_status
foreign_lock_kept = refl

-- A new key: the ride is stored, at the price for one recent request and two free drivers.
pub second_stored :
    (run (create_ride city second) (started city_world.shared)).0
    ≡ ok (new_ride second 51 1000 7 1250)
unfolding create_ride create_new find_existing insert_and_commit recover run effect ◌>>=◌ attempt
    zone_surge surge_multiplier zone_id_for_point latlng_to_h3 insert_checked flushed accepts_insert
    rider_exists id_taken violates_unique clashes both_active publish default_settings load_ride
    Rides.create Rides.get_by_idempotency_key Rides.count_recent_active_in_zone
    Drivers.count_available_in_zone
second_stored = refl

-- The nearer driver comes first.
pub ranked :
    (run (find_ranked_candidates city 100 100) quiet_world).0
    ≡ ok (measured fixed 100 100 near_driver ∷ measured fixed 100 100 far_driver ∷ [])
unfolding run effect ◌>>=◌ find_ranked_candidates search_rings rank_candidates cells_within_ring
    latlng_to_h3 default_settings Drivers.list_available_in_cells
ranked = refl
