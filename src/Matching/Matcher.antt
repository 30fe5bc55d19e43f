-- ===== src/Matching/Matcher.antt =====
-- app/matching/matcher.py: match_ride. `none` from the locked part means `continue`.
use realtime_ride_matching_e.Prelude.{
  ℕ, Bool, true, false, not, Option, none, some, List, [], ◌∷◌, if◌then◌else◌, case_option, length,
}
use realtime_ride_matching_e.Config.{Env}
use realtime_ride_matching_e.Models.{
  Driver, busy, available, driver_status_eq, Ride, requested, matched, ride_status_eq,
}
use realtime_ride_matching_e.Observability.Events.{
  candidates_found, lock_failed, lock_acquired, driver_assigned, no_driver_available,
}
use realtime_ride_matching_e.Program.Commands.{
  value_error, no_available_driver, invalid_ride_state, locking_unavailable, redis_connection_error,
  integrity_error, database_error, Result, ok, err, Prog, ret, raise, call, ◌>>=◌, ◌>>◌, finally,
  attempt, assign_driver_status, refresh_ride, commit, rollback, now, emit, record_lock_contention,
}
use realtime_ride_matching_e.Repositories.Drivers
use realtime_ride_matching_e.Repositories.Rides
use realtime_ride_matching_e.Matching.Ranking.{Candidate}
use realtime_ride_matching_e.Matching.CandidateSearch.{find_ranked_candidates}
use realtime_ride_matching_e.Matching.DriverLock.{acquire_lock, release_lock}

-- _lock_key: the text is injective in the id, which stands for it.
abbrev pub lock_key : ℕ → ℕ
lock_key driver_id = driver_id

-- except (RedisConnectionError, RedisTimeoutError): raise LockingUnavailableError
abbrev pub translate_lock_error : Result (Option ℕ) → Prog (Option ℕ)
translate_lock_error (ok token) = ret token
translate_lock_error (err redis_connection_error) = raise locking_unavailable
translate_lock_error (err e) = raise e

-- db.refresh of a row that is gone raises InvalidRequestError, an SQLAlchemyError.
abbrev pub require_row : {A : Type 0} → Option A → Prog A
require_row none = raise database_error
require_row (some a) = ret a

-- The end of the locked part, by the outcome of db.commit().
abbrev pub after_commit : Ride → Driver → Result (Unit {0}) → Prog (Option Ride)
after_commit ride driver (ok u) = do
  row ← call (refresh_ride ride.id)
  fresh ← require_row row
  call (emit (driver_assigned fresh.id driver.id fresh.pickup_lat fresh.pickup_lng))
  ret (some fresh)
after_commit ride driver (err integrity_error) = do call rollback; ret none
after_commit ride driver (err e) = raise e

-- if not transitioned: roll back and raise; otherwise commit
abbrev pub settle : Ride → Driver → Bool → Prog (Option Ride)
settle ride driver false = do call rollback; raise (invalid_ride_state none)
settle ride driver true = do result ← call commit; after_commit ride driver result

-- The assignment of a driver that passed the re-check.
unfoldable pub take_driver : Ride → Driver → Prog (Option Ride)
take_driver ride driver = do
  call (assign_driver_status driver.id busy)
  at ← call now
  transitioned ←
      Rides.transition_status ride.id (requested ∷ []) matched
        (some (record { driver_id = driver.id; matched_at = at }))
  settle ride driver transitioned

-- The body under the lock: the driver is read again, and skipped unless it is available.
unfoldable pub assign_candidate : Ride → Candidate → Prog (Option Ride)
assign_candidate ride candidate = do
  found ← Drivers.get_by_id candidate.driver.id true
  case_option found (ret none) (λ driver.
      if not (driver_status_eq driver.status available) then ret none else take_driver ride driver)

unfoldable pub try_candidates : Env → Ride → List Candidate → Prog Ride
try_candidates env ride [] = do
  call (emit (no_driver_available ride.id ride.pickup_lat ride.pickup_lng))
  raise no_available_driver
try_candidates env ride (candidate ∷ rest) = do
  let next = try_candidates env ride rest
  let key = lock_key candidate.driver.id
  claimed ← attempt (acquire_lock key env.settings.lock_ttl_ms) translate_lock_error
  case_option claimed
      (do call (emit (lock_failed ride.id candidate.driver.id)); call record_lock_contention; next)
      (λ token. do
        call (emit (lock_acquired ride.id candidate.driver.id))
        assigned ←
            finally (assign_candidate ride candidate) (release_lock key token >>= λ _. ret tt)
        case_option assigned next ret)

unfoldable pub match_ride : Env → Ride → Prog Ride
match_ride env ride = if not (ride_status_eq ride.status requested) then raise value_error else do
  ranked ← find_ranked_candidates env ride.pickup_lat ride.pickup_lng
  call (emit (candidates_found ride.id (length ranked)))
  try_candidates env ride ranked
