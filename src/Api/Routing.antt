-- ===== src/Api/Routing.antt =====
-- The routes of app/api, with what FastAPI reads from a request before it calls the function of one.
use realtime_ride_matching_e.Prelude.{
  ℕ, Bool, Option, none, some, String, if◌then◌else◌, case_option, str_eq,
}
use realtime_ride_matching_e.Floats.{Float}
use realtime_ride_matching_e.Config.{Env}
use realtime_ride_matching_e.Models.{DriverStatus, available, busy, offline}
use realtime_ride_matching_e.Observability.Metrics.{MetricsSnapshot}
use realtime_ride_matching_e.Api.Schemas.{
  Validator, DriverCreate, DriverLocationUpdate, RiderCreate, RideCreateRequest, driver_create_ok,
  driver_location_ok, rider_create_ok, ride_create_ok, header_ok,
}

pub data Route : Type 0 where
  get_drivers_route post_driver_route get_driver_route patch_location_route : Route
  post_rider_route post_ride_route get_ride_route post_cancel_route post_complete_route : Route
  get_surge_route get_stats_route : Route

-- A request as it comes in: ids of the path and the query are text, and the payload is `none` if the
-- body is not JSON with the fields of the payload. The zone of a path is taken as a cell index.
pub data Request : Type 0 where
  get_drivers : (status : Option String) → Request
  post_driver : (payload : Option DriverCreate) → Request
  get_driver : (driver_id : String) → Request
  patch_location : (driver_id : String) (payload : Option DriverLocationUpdate) → Request
  post_rider : (payload : Option RiderCreate) → Request
  post_ride : (payload : Option RideCreateRequest) (idempotency_key : Option String) → Request
  get_ride : (ride_id : String) → Request
  post_cancel : (ride_id : String) → Request
  post_complete : (ride_id : String) → Request
  get_surge : (zone_id : ℕ) → Request
  -- with what the two process-wide trackers show at the time
  get_stats : (metrics : MetricsSnapshot) (db_latencies : Float × Float × Float) → Request

-- The call of a route's function, with its arguments.
pub data Call : Type 0 where
  list_drivers : (status : Option DriverStatus) → Call
  create_driver : (payload : DriverCreate) → Call
  read_driver : (driver_id : ℕ) → Call
  update_driver_location : (driver_id : ℕ) (payload : DriverLocationUpdate) → Call
  create_rider : (payload : RiderCreate) → Call
  request_ride : (payload : RideCreateRequest) (idempotency_key : Option String) → Call
  read_ride : (ride_id : ℕ) → Call
  cancel_ride : (ride_id : ℕ) → Call
  complete_ride : (ride_id : ℕ) → Call
  get_zone_surge : (zone_id : ℕ) → Call
  read_stats : (metrics : MetricsSnapshot) (db_latencies : Float × Float × Float) → Call

abbrev pub route_of : Request → Route
route_of (get_drivers status) = get_drivers_route
route_of (post_driver payload) = post_driver_route
route_of (get_driver id) = get_driver_route
route_of (patch_location id payload) = patch_location_route
route_of (post_rider payload) = post_rider_route
route_of (post_ride payload key) = post_ride_route
route_of (get_ride id) = get_ride_route
route_of (post_cancel id) = post_cancel_route
route_of (post_complete id) = post_complete_route
route_of (get_surge zone) = get_surge_route
route_of (get_stats metrics latencies) = get_stats_route

abbrev pub called_route : Call → Route
called_route (list_drivers status) = get_drivers_route
called_route (create_driver payload) = post_driver_route
called_route (read_driver id) = get_driver_route
called_route (update_driver_location id payload) = patch_location_route
called_route (create_rider payload) = post_rider_route
called_route (request_ride payload key) = post_ride_route
called_route (read_ride id) = get_ride_route
called_route (cancel_ride id) = post_cancel_route
called_route (complete_ride id) = post_complete_route
called_route (get_zone_surge zone) = get_surge_route
called_route (read_stats metrics latencies) = get_stats_route

-- DriverStatus(text)
unfoldable pub driver_status_of : String → Option DriverStatus
driver_status_of text =
    if str_eq text "available"
    then some available
    else if str_eq text "busy"
    then some busy
    else if str_eq text "offline"
    then some offline
    else none

module _ {A : Type 0} (is_ok : A → Bool) where
  -- A payload that was read and is within its ranges.
  unfoldable pub checked : Option A → Option A
  checked none = none
  checked (some a) = if is_ok a then some a else none

module _ (env : Env) (v : Validator) where
  unfoldable pub query_status : Option String → Option Call
  query_status none = some (list_drivers none)
  query_status (some text) =
      case_option (driver_status_of text) none (λ status. some (list_drivers (some status)))

  -- The call that a request asks for; `none` is a RequestValidationError.
  unfoldable pub validated : Request → Option Call
  unfolding query_status checked driver_status_of
  validated (get_drivers status) = query_status status
  validated (post_driver p) =
      case_option (checked (driver_create_ok env.floats v) p) none (λ p. some (create_driver p))
  validated (get_driver id) = case_option (v.parse_uuid id) none (λ id. some (read_driver id))
  validated (patch_location id p) = case_option (v.parse_uuid id) none (λ id.
      case_option (checked (driver_location_ok env.floats v) p) none
        (λ p. some (update_driver_location id p)))
  validated (post_rider p) =
      case_option (checked (rider_create_ok env.floats v) p) none (λ p. some (create_rider p))
  validated (post_ride p key) =
      case_option (checked (ride_create_ok env.floats v) p) none
        (λ p. if header_ok key then some (request_ride p key) else none)
  validated (get_ride id) = case_option (v.parse_uuid id) none (λ id. some (read_ride id))
  validated (post_cancel id) = case_option (v.parse_uuid id) none (λ id. some (cancel_ride id))
  validated (post_complete id) = case_option (v.parse_uuid id) none (λ id. some (complete_ride id))
  validated (get_surge zone) = some (get_zone_surge zone)
  validated (get_stats metrics latencies) = some (read_stats metrics latencies)
