-- ===== src/Repositories/Rides.antt =====
-- app/storage/repositories/ride_repository.py
use realtime_ride_matching_e.Prelude.{
  case_option, ℕ, Bool, true, false, ◌&&◌, Option, none, some, List, [], ◌∷◌, ◌==◌, leb, String,
}
use realtime_ride_matching_e.Floats.{Float}
use realtime_ride_matching_e.Config.{Env}
use realtime_ride_matching_e.Models.{Ride, RideStatus, requested, ride_status_eq, is_active}
use realtime_ride_matching_e.Storage.Tables.{Assignment}
use realtime_ride_matching_e.Storage.Constraints.{same_driver, same_key}
use realtime_ride_matching_e.Program.Commands.{
  Prog, ret, call, lift, ◌>>=◌, ◌>>◌, query_rides, count_rides, distinct_zones, add_ride,
  update_ride, uuid4, now,
}
use realtime_ride_matching_e.Program.Commands

-- The column surge_multiplier is Numeric(4, 2), so that the row has the price as the column rounds it.
-- The id is the column's default, uuid4(), and the two timestamps the server's now().
unfoldable pub create :
    Env → ℕ → Float → Float → Option String → Option ℕ → Option Float → Prog Ride
create env rider_id lat lng key zone_id surge = do
  id ← call uuid4
  at ← call now
  let ride : Ride = record {
    id = id;
    rider_id = rider_id;
    driver_id = none;
    status = requested;
    pickup_lat = lat;
    pickup_lng = lng;
    matched_at = none;
    fare = none;
    surge_multiplier = case_option surge none (λ s. some (env.numeric_4_2 s));
    zone_id = zone_id;
    idempotency_key = key;
    created_at = at;
    updated_at = at;
  }
  flushed ← call (add_ride ride)
  lift flushed
  ret ride

unfoldable pub get_by_id : ℕ → Prog (Option Ride)
get_by_id id = call (Commands.get_ride id)

abbrev pub first {ℓ} : {A : Type ℓ} → List A → Option A
first [] = none
first (x ∷ xs) = some x

unfoldable pub get_by_idempotency_key : String → Prog (Option Ride)
get_by_idempotency_key key = do
  rows ← call (query_rides (λ r. same_key r.idempotency_key (some key)))
  ret (first rows)

-- Ride.zone_id == zone_id, where NULL equals nothing
abbrev pub in_zone : ℕ → Option ℕ → Bool
in_zone zone none = false
in_zone zone (some z) = z == zone

unfoldable pub count_recent_active_in_zone : ℕ → ℕ → Prog ℕ
count_recent_active_in_zone zone_id since =
    call
      (count_rides (λ r. in_zone zone_id r.zone_id && leb since r.created_at && is_active r.status))

unfoldable pub list_active_for_driver : ℕ → Prog (List Ride)
list_active_for_driver driver_id =
    call (query_rides (λ r. same_driver r.driver_id (some driver_id) && is_active r.status))

-- rowcount > 0 of the conditional UPDATE
unfoldable pub transition_status : ℕ → List RideStatus → RideStatus → Option Assignment → Prog Bool
transition_status ride_id from_statuses to_status extra_values = do
  result ← call (update_ride ride_id from_statuses to_status extra_values)
  lift result

unfoldable pub count_by_status : RideStatus → Prog ℕ
count_by_status status = call (count_rides (λ r. ride_status_eq r.status status))

abbrev pub has_zone : Option ℕ → Bool
has_zone none = false
has_zone (some z) = true

unfoldable pub list_recent_zone_ids : ℕ → Prog (List ℕ)
list_recent_zone_ids since =
    call (distinct_zones (λ r. has_zone r.zone_id && leb since r.created_at))
