-- ===== src/Api/Errors.antt =====
-- app/main.py: the structured error envelope. Messages are left out, but for what is logged.
use realtime_ride_matching_e.Prelude.{ℕ, String, Option, none, some}
use realtime_ride_matching_e.Program.Commands.{
  Exn, value_error, no_available_driver, invalid_ride_state, ride_not_found, driver_not_found,
  idempotency_key_conflict, locking_unavailable, redis_connection_error, integrity_error,
  database_error,
}

pub record ErrorResponse : Type 0 where
  pub status_code : ℕ
  pub code : String

-- The handler of each exception; `none` is an exception without a handler.
unfoldable pub error_response : Exn → Option ErrorResponse
error_response idempotency_key_conflict =
    some (record { status_code = 409; code = "idempotency_key_conflict" })
error_response ride_not_found = some (record { status_code = 404; code = "ride_not_found" })
error_response driver_not_found = some (record { status_code = 404; code = "driver_not_found" })
error_response (invalid_ride_state current) =
    some (record { status_code = 409; code = "invalid_ride_state" })
error_response locking_unavailable =
    some (record { status_code = 503; code = "locking_unavailable" })
error_response integrity_error = some (record { status_code = 503; code = "database_error" })
error_response database_error = some (record { status_code = 503; code = "database_error" })
error_response value_error = none
error_response no_available_driver = none
error_response redis_connection_error = none
