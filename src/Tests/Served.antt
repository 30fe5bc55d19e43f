-- ===== src/Tests/Served.antt =====
-- Requests to the server on the small city.
use realtime_ride_matching_e.Prelude.{ℕ, ◌≡◌, refl, ◌&&◌, none, false, ◌==◌, str_eq, if◌then◌else◌}
use realtime_ride_matching_e.Prelude.{◌≤◌, List, map, any, count, contains, leb, some}
use realtime_ride_matching_e.Pricing.{SurgeResult, zone_surge, surge_by_zone, window_start}
use realtime_ride_matching_e.Repositories.Rides.{in_zone}
use realtime_ride_matching_e.RideService.Inserting.{quoted}
use realtime_ride_matching_e.Api.Quotes.{surge_by_zone_agrees}
use realtime_ride_matching_e.Floats.{float_le}
use realtime_ride_matching_e.Models.{Driver, available}
use realtime_ride_matching_e.Storage.Tables.{apply, insert_driver, find_driver}
use realtime_ride_matching_e.Program.State.{Shared}
use realtime_ride_matching_e.Program.Cases.{started}
use realtime_ride_matching_e.Program.Effects.{effect}
use realtime_ride_matching_e.Program.SessionScope.{Scoped, session_scope, session_scope-Scoped}
use realtime_ride_matching_e.Api.Drivers.{
  commit_and_refresh, create_driver, get_driver, update_driver_location,
}
use realtime_ride_matching_e.Repositories.Drivers as DriverRepository
use realtime_ride_matching_e.Matching.Geo.{latlng_to_h3, zone_id_for_point}
use realtime_ride_matching_e.Api.DriverRows.{new_driver}
use realtime_ride_matching_e.Api.ReadBack.{
  MovedTo, create_driver_reads_back, update_driver_location_reads_back,
}
use realtime_ride_matching_e.Program.Commands.{Prog, ◌>>=◌, ok, err, driver_not_found}
use realtime_ride_matching_e.Program.Exec.{run}
use realtime_ride_matching_e.Api.Schemas.{
  Validator, RideCreateRequest, DriverCreate, driver_create_ok,
}
use realtime_ride_matching_e.Api.Routing.{
  get_drivers, post_driver, post_cancel, validated, checked, query_status, driver_status_of,
}
use realtime_ride_matching_e.Api.App.{error_envelope, serve}
use realtime_ride_matching_e.Tests.FixedFloats.{fixed}
use realtime_ride_matching_e.Tests.Reference.{reliable}
use realtime_ride_matching_e.Tests.Samples.{near_driver, city, city_world}

abbrev in_order : Validator
in_order = record {
  accepts = λ low high value. float_le fixed low value && float_le fixed value high;
  parse_uuid = λ text. if str_eq text "7" then some 7 else none;
}

abbrev here : RideCreateRequest
here = record { rider_id = 5; pickup_lat = 100; pickup_lng = 100 }

abbrev far_off : DriverCreate
far_off = record { current_lat = 100; current_lng = 900_000_000 }

serve-rejects :
    run ⦃p = reliable⦄ (serve city in_order (post_driver (some far_off))) city_world
    ≡ (ok (error_envelope 422 "validation_error"), city_world)
unfolding serve run validated checked driver_create_ok
serve-rejects = refl

serve-rejects_id :
    run ⦃p = reliable⦄ (serve city in_order (post_cancel "abc")) city_world
    ≡ (ok (error_envelope 422 "validation_error"), city_world)
unfolding serve run validated
serve-rejects_id = refl

serve-rejects_status :
    run ⦃p = reliable⦄ (serve city in_order (get_drivers (some "free"))) city_world
    ≡ (ok (error_envelope 422 "validation_error"), city_world)
unfolding serve run validated query_status driver_status_of
serve-rejects_status = refl

abbrev city_shared : Shared
city_shared = city_world.shared

abbrev new_one : Driver
new_one = record near_driver { id = 50; last_updated_at = 1000 }

creates : (run ⦃p = reliable⦄ (create_driver city 100 100) (started city_shared)).0 ≡ ok new_one
unfolding run create_driver ◌>>=◌ DriverRepository.create commit_and_refresh effect
    DriverRepository.get_by_id latlng_to_h3 zone_id_for_point
creates = refl

abbrev moved_one : Driver
moved_one = record near_driver { current_lat = 300; current_lng = 200; last_updated_at = 1000 }

moves :
    (run ⦃p = reliable⦄ (update_driver_location city 1 300 200) (started city_shared)).0
    ≡ ok moved_one
unfolding run update_driver_location ◌>>=◌ DriverRepository.update_location commit_and_refresh
    effect DriverRepository.get_by_id latlng_to_h3 zone_id_for_point
moves = refl

create_driver_reads_back_example :
    (at : ℕ) × (new_one ≡ new_driver city 100 100 50 at)
    × ((run ⦃p = reliable⦄ (create_driver city 100 100) (started city_shared)).1.shared.db
        ≡ apply city_shared.db (insert_driver new_one))
    × ((run ⦃p = reliable⦄ (get_driver 50) (
          started
            (run ⦃p = reliable⦄ (create_driver city 100 100) (started city_shared)).1.shared)).0
        ≡ ok new_one)
create_driver_reads_back_example =
    create_driver_reads_back ⦃p = reliable⦄ city 100 100 city_shared new_one refl creates

update_driver_location_reads_back_example :
    MovedTo city 300 200 near_driver moved_one
    × ((j : ℕ)
        → (1 == j) ≡ false
        → find_driver
            (run ⦃p = reliable⦄
              (update_driver_location city 1 300 200)
              (started city_shared)).1.shared.db
            j
          ≡ find_driver city_shared.db j)
    × ((run ⦃p = reliable⦄ (get_driver 1) (
          started
            (run ⦃p = reliable⦄
              (update_driver_location city 1 300 200)
              (started city_shared)).1.shared)).0
        ≡ ok moved_one)
    × ((id : ℕ)
        → find_driver city_shared.db id ≡ none
        → run ⦃p = reliable⦄ (update_driver_location city id 300 200) (started city_shared)
          ≡ (err driver_not_found, started city_shared))
update_driver_location_reads_back_example =
    update_driver_location_reads_back ⦃p = reliable⦄ city 300 200 city_shared near_driver moved_one
      refl moves

surge_by_zone_agrees_example :
    (zones : List ℕ) × (entry : ℕ → SurgeResult) × (run ⦃p = reliable⦄
        (surge_by_zone city (some 1000))
        city_world
      ≡ (ok (map entry zones), city_world))
    × ((zone : ℕ)
        → run ⦃p = reliable⦄ (zone_surge city zone (some 1000)) city_world
          ≡ (ok (entry zone), city_world))
    × ((zone : ℕ) → entry zone ≡ quoted city city_world.shared.db zone 1000)
    × ((zone : ℕ) → count zone zones ≤ 1)
    × ((zone : ℕ)
        → contains zone zones
          ≡ any
              (λ r. leb (window_start city 1000) r.created_at && in_zone zone r.zone_id)
              city_world.shared.db.rides)
surge_by_zone_agrees_example = surge_by_zone_agrees ⦃p = reliable⦄ city 1000 city_world

abbrev adds_driver : Prog Driver
adds_driver = DriverRepository.create 100 100 7 7 available

session_scope-Scoped_example :
    Scoped
      (run ⦃p = reliable⦄ adds_driver city_world)
      (run ⦃p = reliable⦄ (session_scope adds_driver) city_world)
session_scope-Scoped_example = session_scope-Scoped ⦃p = reliable⦄ adds_driver city_world
