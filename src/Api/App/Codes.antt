-- ===== src/Api/App/Codes.antt =====
-- The answers of each route: app/main.py and the decorators in app/api.
use realtime_ride_matching_e.Prelude.{
  ℕ, ◌≡◌, true, Bool, ◌&&◌, List, [], ◌∷◌, any, ◌==◌, String, str_eq,
}
use realtime_ride_matching_e.Program.Commands.{redis_connection_error, Result, ok, err}
use realtime_ride_matching_e.Api.Routing.{
  Route, get_drivers_route, post_driver_route, get_driver_route, patch_location_route,
  post_rider_route, post_ride_route, get_ride_route, post_cancel_route, post_complete_route,
  get_surge_route, get_stats_route, Request, route_of,
}
use realtime_ride_matching_e.Api.App.{Response, json_response, error_envelope}
use realtime_ride_matching_e.Api.App.Escapes.{Escapes}

-- The status of a success.
abbrev pub success_status : Route → ℕ
success_status post_driver_route = 201
success_status post_rider_route = 201
success_status post_ride_route = 201
success_status _ = 200

-- The error envelopes that a client must expect, besides a database that fails.
abbrev pub own_errors : Route → List (ℕ × String)
own_errors get_drivers_route = (422, "validation_error") ∷ []
own_errors post_driver_route = (422, "validation_error") ∷ []
own_errors get_driver_route = (422, "validation_error") ∷ (404, "driver_not_found") ∷ []
own_errors patch_location_route = (422, "validation_error") ∷ (404, "driver_not_found") ∷ []
own_errors post_rider_route = (422, "validation_error") ∷ []
own_errors post_ride_route =
    (422, "validation_error")
    ∷ (409, "idempotency_key_conflict")
    ∷ (409, "invalid_ride_state")
    ∷ (503, "locking_unavailable")
    ∷ []
own_errors get_ride_route = (422, "validation_error") ∷ (404, "ride_not_found") ∷ []
own_errors post_cancel_route =
    (422, "validation_error") ∷ (404, "ride_not_found") ∷ (409, "invalid_ride_state") ∷ []
own_errors post_complete_route =
    (422, "validation_error") ∷ (404, "ride_not_found") ∷ (409, "invalid_ride_state") ∷ []
own_errors get_surge_route = []
own_errors get_stats_route = []

abbrev pub is_listed : Route → ℕ → String → Bool
is_listed route status_code code =
    any (λ x. x.0 == status_code && str_eq x.1 code) ((503, "database_error") ∷ own_errors route)

abbrev pub IsListed : Request → Result Response → Type 0
IsListed request (ok (json_response status_code body)) =
    status_code ≡ success_status (route_of request)
IsListed request (ok (error_envelope status_code code)) =
    is_listed (route_of request) status_code code ≡ true
IsListed request (err e) = (route_of request ≡ post_ride_route) × (e ≡ redis_connection_error)
