-- ===== src/RideService.antt =====
-- app/services/ride_service.py: idempotent, surge-priced creation, and the two ends of a ride.
pub mod Ending
pub mod Idempotency
pub mod Inserting
pub mod Creation
pub mod Retry
use realtime_ride_matching_e.Prelude.{
  ℕ, Bool, true, false, not, ◌&&◌, Option, none, some, List, [], ◌∷◌, if◌then◌else◌, case_option,
  ◌==◌, String,
}
use realtime_ride_matching_e.Floats.{Float}
use realtime_ride_matching_e.Config.{Env}
use realtime_ride_matching_e.Models.{
  available, Ride, RideStatus, matched, in_progress, completed, cancelled, active_ride_statuses,
}
use realtime_ride_matching_e.Observability.Events.{
  Event, ride_requested, ride_cancelled, ride_completed,
}
use realtime_ride_matching_e.Program.Commands.{
  invalid_ride_state, ride_not_found, idempotency_key_conflict, integrity_error, Result, ok, err,
  Prog, ret, raise, call, lift, ◌>>=◌, ◌>>◌, attempt, assign_driver_status, refresh_ride, get_ride,
  commit, rollback, emit,
}
use realtime_ride_matching_e.Repositories.Drivers
use realtime_ride_matching_e.Repositories.Rides
use realtime_ride_matching_e.Matching.Geo.{zone_id_for_point}
use realtime_ride_matching_e.Matching.Matcher.{require_row}
use realtime_ride_matching_e.Pricing.{zone_surge}

-- The parameters of create_ride.
pub record RideRequest : Type 0 where
  pub rider_id : ℕ
  pub pickup_lat : Float
  pub pickup_lng : Float
  pub idempotency_key : Option String

-- _COMPLETABLE_STATUSES
abbrev pub completable_statuses : List RideStatus
completable_statuses = matched ∷ in_progress ∷ []

-- _matches
unfoldable pub matches : Env → Ride → RideRequest → Bool
matches env ride req =
    ride.rider_id == req.rider_id
    && (env.floats.eq ride.pickup_lat req.pickup_lat
        && env.floats.eq ride.pickup_lng req.pickup_lng)

-- The look-up before anything is written; `some` is the ride to return.
unfoldable pub find_existing : Env → RideRequest → Option String → Prog (Option Ride)
find_existing env req none = ret none
find_existing env req (some key) = do
  existing ← Rides.get_by_idempotency_key key
  case_option existing (ret none)
      (λ ride. if matches env ride req then ret (some ride) else raise idempotency_key_conflict)

-- except IntegrityError: the ride that another request made under the key, if there is one
unfoldable pub recover : Option String → Result Ride → Prog (Ride × Bool)
recover key (ok ride) = ret (ride, true)
recover none (err integrity_error) = do call rollback; raise integrity_error
recover (some key) (err integrity_error) = do
  call rollback
  winner ← Rides.get_by_idempotency_key key
  case_option winner (raise integrity_error) (λ ride. ret (ride, false))
recover key (err e) = raise e

-- try: ride = ride_repo.create(...); db.commit()
unfoldable pub insert_and_commit : Env → RideRequest → ℕ → Float → Prog Ride
insert_and_commit env req zone_id multiplier = do
  ride ←
      Rides.create env req.rider_id req.pickup_lat req.pickup_lng req.idempotency_key (some zone_id)
        (some multiplier)
  committed ← call commit
  lift committed
  ret ride

-- The commit expired the new object, so that the next look at it loads its row.
unfoldable pub create_new : Env → RideRequest → Prog Ride
create_new env req = do
  let zone_id =
      zone_id_for_point env req.pickup_lat req.pickup_lng env.settings.surge_zone_resolution
  surge ← zone_surge env zone_id none
  outcome ←
      attempt (insert_and_commit env req zone_id surge.multiplier) (recover req.idempotency_key)
  if not outcome.1 then ret outcome.0 else do
    row ← call (get_ride outcome.0.id)
    ride ← require_row row
    call (
        emit (
          ride_requested ride.id req.rider_id zone_id surge.multiplier req.pickup_lat
            req.pickup_lng))
    ret ride

unfoldable pub create_ride : Env → RideRequest → Prog Ride
create_ride env req = do
  existing ← find_existing env req req.idempotency_key
  case_option existing (create_new env req) ret

abbrev pub status_of : Option Ride → Option RideStatus
status_of none = none
status_of (some r) = some r.status

-- _transition_or_raise
unfoldable pub transition_or_raise : ℕ → List RideStatus → RideStatus → Prog Ride
transition_or_raise ride_id from_statuses to_status = do
  found ← Rides.get_by_id ride_id
  case_option found (raise ride_not_found) (λ loaded. do
    transitioned ← Rides.transition_status ride_id from_statuses to_status none
    if not transitioned
        then (do
          call rollback
          current ← Rides.get_by_id ride_id
          raise (invalid_ride_state (status_of current)))
        else (do row ← call (refresh_ride ride_id); require_row row))

-- if ride.driver_id is not None: the driver, read afresh, is available again
unfoldable pub free_driver : Option ℕ → Prog (Unit {0})
free_driver none = ret tt
free_driver (some driver_id) = do
  found ← Drivers.get_by_id driver_id true
  case_option found (ret tt) (λ driver. call (assign_driver_status driver.id available))

-- What cancel_ride and complete_ride have in common.
unfoldable pub end_ride : ℕ → List RideStatus → RideStatus → (Ride → Event) → Prog Ride
end_ride ride_id from_statuses to_status event = do
  ride ← transition_or_raise ride_id from_statuses to_status
  free_driver ride.driver_id
  committed ← call commit
  lift committed
  row ← call (refresh_ride ride_id)
  fresh ← require_row row
  call (emit (event fresh))
  ret fresh

unfoldable pub cancel_ride : ℕ → Prog Ride
cancel_ride ride_id =
    end_ride ride_id active_ride_statuses cancelled (λ r. ride_cancelled r.id r.driver_id)

unfoldable pub complete_ride : ℕ → Prog Ride
complete_ride ride_id =
    end_ride ride_id completable_statuses completed (λ r. ride_completed r.id r.driver_id)
