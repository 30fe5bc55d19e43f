-- ===== src/Api/Health.antt =====
-- GET /health of app/main.py, on what the two services answer.
use realtime_ride_matching_e.Prelude.{Bool, true, false, ◌&&◌, String, if◌then◌else◌}
use realtime_ride_matching_e.Program.Commands.{Result, ok, err}

pub record HealthReport : Type 0 where
  pub status : String
  pub database : Bool
  pub redis : Bool

-- db.execute(text("SELECT 1")) on a session of its own: any exception means that it is down.
unfoldable pub database_ok : Result (Unit {0}) → Bool
database_ok (ok u) = true
database_ok (err e) = false

-- bool(redis_client.ping())
unfoldable pub redis_ok : Result Bool → Bool
redis_ok (ok pong) = pong
redis_ok (err e) = false

unfoldable pub health : Result (Unit {0}) → Result Bool → HealthReport
unfolding database_ok redis_ok
health executed pinged = record {
  status = if database_ok executed && redis_ok pinged then "ok" else "degraded";
  database = database_ok executed;
  redis = redis_ok pinged;
}
