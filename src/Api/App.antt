-- ===== src/Api/App.antt =====
-- app/main.py with its routers: from a request to the response. Each request has its own session.
-- /health is in Health, and the static dashboard is left out.
pub mod Kinds
pub mod Matching
pub mod RideRoutes
pub mod ReadRoutes
pub mod Requests
pub mod Escapes
pub mod Codes
use realtime_ride_matching_e.Prelude.{ℕ, List, String, case_option}
use realtime_ride_matching_e.Config.{Env}
use realtime_ride_matching_e.Models.{Driver, Rider}
use realtime_ride_matching_e.Pricing.{SurgeResult}
use realtime_ride_matching_e.Program.Commands.{Result, ok, err, Prog, ret, raise, ◌>>=◌, attempt}
use realtime_ride_matching_e.Api.Errors.{error_response}
use realtime_ride_matching_e.Api.Schemas.{Validator, RideResponse, ride_response}
use realtime_ride_matching_e.Api.Routing.{
  Request, Call, list_drivers, create_driver, read_driver, update_driver_location, create_rider,
  request_ride, read_ride, cancel_ride, complete_ride, get_zone_surge, read_stats, validated,
}
use realtime_ride_matching_e.Api.Drivers
use realtime_ride_matching_e.Api.Rides
use realtime_ride_matching_e.Api.Stats
use realtime_ride_matching_e.Api.Stats.{StatsResponse}

pub data Body : Type 0 where
  drivers : List Driver → Body
  driver : Driver → Body
  rider : Rider → Body
  ride : RideResponse → Body
  surge : SurgeResult → Body
  stats : StatsResponse → Body

pub data Response : Type 0 where
  json_response : (status_code : ℕ) (body : Body) → Response
  -- {"error": {"code": code, ...}}
  error_envelope : (status_code : ℕ) (code : String) → Response

-- status_code of each route
unfoldable pub success_code : Call → ℕ
success_code (create_driver p) = 201
success_code (create_rider p) = 201
success_code (request_ride p key) = 201
success_code _ = 200

abbrev pub shown : {A : Type 0} → Prog A → (A → Body) → Prog Body
shown m show = m >>= λ a. ret (show a)

-- app.include_router: the function of each route.
unfoldable pub endpoint : Env → Call → Prog Body
endpoint env (list_drivers status) = shown (Drivers.list_drivers status) drivers
endpoint env (create_driver p) =
    shown (Drivers.create_driver env p.current_lat p.current_lng) driver
endpoint env (read_driver id) = shown (Drivers.get_driver id) driver
endpoint env (update_driver_location id p) =
    shown (Drivers.update_driver_location env id p.lat p.lng) driver
endpoint env (create_rider p) = shown (Drivers.create_rider p.pickup_lat p.pickup_lng) rider
endpoint env (request_ride p key) =
    shown
      (Rides.request_ride env (record {
        rider_id = p.rider_id;
        pickup_lat = p.pickup_lat;
        pickup_lng = p.pickup_lng;
        idempotency_key = key;
      }))
      (λ r. ride (ride_response r))
endpoint env (read_ride id) = shown (Rides.get_ride id) (λ r. ride (ride_response r))
endpoint env (cancel_ride id) = shown (Rides.cancel_ride_endpoint id) (λ r. ride (ride_response r))
endpoint env (complete_ride id) =
    shown (Rides.complete_ride_endpoint id) (λ r. ride (ride_response r))
endpoint env (get_zone_surge zone) = shown (Stats.get_zone_surge env zone) surge
endpoint env (read_stats metrics latencies) = shown (Stats.get_stats env metrics latencies) stats

-- The exception handlers; an exception that has none leaves the application.
unfoldable pub respond : Call → Result Body → Prog Response
respond call (ok body) = ret (json_response (success_code call) body)
respond call (err e) =
    case_option (error_response e) (raise e) (λ r. ret (error_envelope r.status_code r.code))

unfoldable pub serve : Env → Validator → Request → Prog Response
serve env v request =
    case_option (validated env v request) (ret (error_envelope 422 "validation_error"))
      (λ call. attempt (endpoint env call) (respond call))
