-- ===== src/Api/App/Escapes.antt =====
-- What every request is answered with: app/main.py over all its routes.
use realtime_ride_matching_e.Prelude.{ℕ, ◌≡◌, String, Option}
use realtime_ride_matching_e.Config.{Env}
use realtime_ride_matching_e.Program.State.{World}
use realtime_ride_matching_e.Program.Commands.{
  Exn, invalid_ride_state, ride_not_found, driver_not_found, idempotency_key_conflict,
  locking_unavailable, redis_connection_error, integrity_error, database_error, Result, ok, err,
}
use realtime_ride_matching_e.Models.{RideStatus}
use realtime_ride_matching_e.Program.Exec.{Platform, run}
use realtime_ride_matching_e.Program.Raises.{Raises, gives, IsDatabaseError, Raises-bind}
use realtime_ride_matching_e.Api.Rides
use realtime_ride_matching_e.Api.Stats
use realtime_ride_matching_e.Api.Schemas.{Validator}
use realtime_ride_matching_e.Api.Routing.{
  Route, get_driver_route, patch_location_route, post_ride_route, get_ride_route, post_cancel_route,
  post_complete_route, Request, Call, called_route,
}
use realtime_ride_matching_e.Api.App.{
  Body, Response, json_response, error_envelope, success_code, endpoint,
}
use realtime_ride_matching_e.Api.App.Requests.{Accepts}
use realtime_ride_matching_e.Api.App.Kinds.{
  OfDriver, OfLookup, OfRide, OfRequest, zone_surge-Raises,
}
use realtime_ride_matching_e.Api.App.RideRoutes.{
  cancel_ride-Raises, complete_ride-Raises, request_ride-Raises,
}
use realtime_ride_matching_e.Api.App.ReadRoutes.{
  list_drivers-Raises, create_driver-Raises, get_driver_route-Raises, update_location_route-Raises,
  create_rider-Raises, get_ride_route-Raises, get_stats-Raises,
}

-- The exceptions that may leave the function of a route.
abbrev pub Escapes : Route → Exn → Type 0
Escapes get_driver_route = OfDriver
Escapes patch_location_route = OfDriver
Escapes post_ride_route = OfRequest
Escapes get_ride_route = OfLookup
Escapes post_cancel_route = OfRide
Escapes post_complete_route = OfRide
Escapes _ = IsDatabaseError

-- The status and the code by which a client tells each exception.
pub data Reports : Exn → ℕ → String → Type 0 where
  conflict : Reports idempotency_key_conflict 409 "idempotency_key_conflict"
  no_ride : Reports ride_not_found 404 "ride_not_found"
  no_driver : Reports driver_not_found 404 "driver_not_found"
  wrong_state :
      (current : Option RideStatus) → Reports (invalid_ride_state current) 409 "invalid_ride_state"
  no_lock_server : Reports locking_unavailable 503 "locking_unavailable"
  constraint : Reports integrity_error 503 "database_error"
  no_database : Reports database_error 503 "database_error"

ruleset routes = (
  gives, Raises-bind, list_drivers-Raises, create_driver-Raises, get_driver_route-Raises,
  update_location_route-Raises, create_rider-Raises, request_ride-Raises, get_ride_route-Raises,
  cancel_ride-Raises, complete_ride-Raises, zone_surge-Raises, get_stats-Raises,
)

-- The response, and the world after it.
pub data Answered ⦃p : Platform⦄ (env : Env) (v : Validator) (request : Request) (w : World)
    : Result Response × World → Type 0 where
  rejected :
      ((call : Call) → Accepts env v request call → ⊥)
      → Answered env v request w (ok (error_envelope 422 "validation_error"), w)
  succeeded :
      (call : Call) (body : Body) (w' : World)
      → Accepts env v request call
      → run (endpoint env call) w ≡ (ok body, w')
      → Answered env v request w (ok (json_response (success_code call) body), w')
  failed :
      (call : Call) (e : Exn) (status_code : ℕ) (code : String) (w' : World)
      → Accepts env v request call
      → run (endpoint env call) w ≡ (err e, w')
      → Escapes (called_route call) e
      → Reports e status_code code
      → Answered env v request w (ok (error_envelope status_code code), w')
  unhandled :
      (call : Call) (w' : World)
      → Accepts env v request call
      → run (endpoint env call) w ≡ (err redis_connection_error, w')
      → called_route call ≡ post_ride_route
      → Answered env v request w (err redis_connection_error, w')
