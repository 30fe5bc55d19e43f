-- ===== src/Api/Rides.antt =====
-- app/api/rides.py
pub mod Recording
use realtime_ride_matching_e.Prelude.{
  ℕ, ◌-◌, String, Option, none, some, if◌then◌else◌, case_option, str_eq,
}
use realtime_ride_matching_e.Config.{Env}
use realtime_ride_matching_e.Models.{Ride, requested, ride_status_eq}
use realtime_ride_matching_e.Observability.Metrics.{Outcome, matched, unmatched, error}
use realtime_ride_matching_e.Program.Commands.{
  no_available_driver, ride_not_found, Result, ok, err, Prog, ret, raise, call, ◌>>=◌, ◌>>◌,
  attempt, now, record_attempt,
}
use realtime_ride_matching_e.Repositories.Rides
use realtime_ride_matching_e.Matching.Matcher.{match_ride}
use realtime_ride_matching_e.RideService.{RideRequest, create_ride, cancel_ride, complete_ride}

-- idempotency_key or None
abbrev pub real_key : Option String → Option String
real_key none = none
real_key (some key) = if str_eq key "" then none else some key

-- metrics_tracker.record(outcome, time.perf_counter() - start)
abbrev pub record_since : ℕ → Outcome → Prog (Unit {0})
record_since start outcome = do stop ← call now; call (record_attempt outcome (stop - start))

-- The except and else clauses round match_ride.
abbrev pub after_match : Ride → ℕ → Result Ride → Prog Ride
after_match ride start (ok result) = do record_since start matched; ret result
after_match ride start (err no_available_driver) = do record_since start unmatched; ret ride
after_match ride start (err e) = do record_since start error; raise e

unfoldable pub request_ride : Env → RideRequest → Prog Ride
request_ride env payload = do
  ride ← create_ride env (record payload { idempotency_key = real_key payload.idempotency_key })
  if ride_status_eq ride.status requested
      then (do start ← call now; attempt (match_ride env ride) (after_match ride start))
      else ret ride

unfoldable pub get_ride : ℕ → Prog Ride
get_ride ride_id = do found ← Rides.get_by_id ride_id; case_option found (raise ride_not_found) ret

unfoldable pub cancel_ride_endpoint : ℕ → Prog Ride
cancel_ride_endpoint ride_id = cancel_ride ride_id

unfoldable pub complete_ride_endpoint : ℕ → Prog Ride
complete_ride_endpoint ride_id = complete_ride ride_id
