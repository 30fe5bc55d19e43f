-- ===== src/Api/App/Matching.antt =====
-- Which exceptions leave match_ride: app/matching/matcher.py.
use realtime_ride_matching_e.Prelude.{
  ℕ, zero, suc, ◌≡◌, Bool, true, false, Option, none, List, [], ◌∷◌,
}
use realtime_ride_matching_e.Config.{Env}
use realtime_ride_matching_e.Floats.{Float}
use realtime_ride_matching_e.Models.{Driver, Ride, ride_status_eq, requested}
use realtime_ride_matching_e.Program.Commands.{
  Result, ok, err, no_available_driver, invalid_ride_state, locking_unavailable,
  redis_connection_error, integrity_error, database_error, Exn, call, lift, commit,
  compare_and_delete, set_nx_px, uuid4, rollback, raise, attempt,
}
use realtime_ride_matching_e.Program.Raises.{
  Raises, gives, throws, Fails, IsDatabaseError, IsRedisError, Raises-call, Raises-bind, Raises-ask,
  Raises-lift, Raises-attempt, raises_rules,
}
use realtime_ride_matching_e.Repositories.Drivers
use realtime_ride_matching_e.Matching.Ranking.{Candidate}
use realtime_ride_matching_e.Matching.CandidateSearch.{search_rings, find_ranked_candidates}
use realtime_ride_matching_e.Matching.DriverLock.{acquire_lock, release_lock}
use realtime_ride_matching_e.Matching.Matcher.{
  assign_candidate, settle, take_driver, after_commit, try_candidates, translate_lock_error,
  match_ride,
}
use realtime_ride_matching_e.Api.App.Kinds.{
  OfMatching, AllowsDatabase, require_row-Raises, transition-Raises, get_driver-Raises,
}

module _ {E : Exn → Type 0} where
  list_available-Raises : (cells : List ℕ) → Raises E (Drivers.list_available_in_cells cells)
  unfolding Drivers.list_available_in_cells
  list_available-Raises [] = gives []
  list_available-Raises (c ∷ cells) = search raises_rules

  search_rings-Raises :
      (env : Env) (cell rounds k : ℕ) (found : List Driver)
      → Raises E (search_rings env cell rounds k found)
  unfolding search_rings
  search_rings-Raises env cell zero k found = gives found
  search_rings-Raises env cell (suc rounds) k found =
      search (raises_rules, list_available-Raises, search_rings-Raises env cell rounds)

  find_ranked_candidates-Raises :
      (env : Env) (lat lng : Float) → Raises E (find_ranked_candidates env lat lng)
  unfolding find_ranked_candidates
  find_ranked_candidates-Raises env lat lng = search (raises_rules, search_rings-Raises)

acquire_lock-Raises : (key ttl : ℕ) → Raises IsRedisError (acquire_lock key ttl)
unfolding acquire_lock
acquire_lock-Raises key ttl = Raises-bind (call uuid4) _ (Raises-call uuid4) (λ token.
    Raises-ask (set_nx_px key token ttl) _
      (λ reply q. Raises-bind (lift reply) _ (Raises-lift reply q) (λ acquired. gives _)))

redis_lifts : {A : Type 0} (r : Result A) → Fails IsRedisError r → Raises OfMatching (lift r)
redis_lifts (ok a) h = gives a
redis_lifts (err redis_connection_error) h = throws redis_connection_error tt
redis_lifts (err e) h = absurd h

release_lock-Raises : (key token : ℕ) → Raises OfMatching (release_lock key token)
unfolding release_lock
release_lock-Raises key token = Raises-ask (compare_and_delete key token) lift redis_lifts

translate-Raises :
    (r : Result (Option ℕ)) → Fails IsRedisError r → Raises OfMatching (translate_lock_error r)
translate-Raises (ok token) h = gives token
translate-Raises (err redis_connection_error) h = throws locking_unavailable tt
translate-Raises (err e) h = absurd h

claim-Raises :
    (key ttl : ℕ) → Raises OfMatching (attempt (acquire_lock key ttl) translate_lock_error)
claim-Raises key ttl =
    Raises-attempt IsRedisError (acquire_lock key ttl) translate_lock_error
      (acquire_lock-Raises key ttl) translate-Raises

ruleset parts = (
  raises_rules, find_ranked_candidates-Raises, claim-Raises, release_lock-Raises, get_driver-Raises,
)

db : AllowsDatabase OfMatching
db = (tt, tt)

after_commit-Raises :
    (ride : Ride) (driver : Driver) (r : Result (Unit {0}))
    → Fails IsDatabaseError r
    → Raises OfMatching (after_commit ride driver r)
after_commit-Raises ride driver (ok u) h =
    search (parts, λ (o : Option Ride). require_row-Raises {E = OfMatching} db o) depth 8
after_commit-Raises ride driver (err integrity_error) h = search parts
after_commit-Raises ride driver (err database_error) h = throws database_error tt
after_commit-Raises ride driver (err e) h = absurd h

settle-Raises :
    (ride : Ride) (driver : Driver) (done : Bool) → Raises OfMatching (settle ride driver done)
settle-Raises ride driver true =
    Raises-ask commit (after_commit ride driver) (after_commit-Raises ride driver)
settle-Raises ride driver false =
    Raises-bind (call rollback) _ (Raises-call rollback) (λ u. throws (invalid_ride_state none) tt)

take_driver-Raises : (ride : Ride) (driver : Driver) → Raises OfMatching (take_driver ride driver)
unfolding take_driver
take_driver-Raises ride driver =
    search (parts, transition-Raises {E = OfMatching} db, settle-Raises) depth 8

assign_candidate-Raises :
    (ride : Ride) (candidate : Candidate) → Raises OfMatching (assign_candidate ride candidate)
unfolding assign_candidate
assign_candidate-Raises ride candidate = search (parts, take_driver-Raises) depth 8

none_left : {A : Type 0} → Raises OfMatching {A = A} (raise no_available_driver)
none_left = throws no_available_driver tt

try_candidates-Raises :
    (env : Env) (ride : Ride) (cs : List Candidate) → Raises OfMatching (try_candidates env ride cs)
unfolding try_candidates
try_candidates-Raises env ride [] = search (parts, none_left)
try_candidates-Raises env ride (c ∷ cs) =
    search (parts, assign_candidate-Raises, try_candidates-Raises env ride cs) depth 12

-- On a ride that is requested, match_ride does not fail by its own precondition.
pub match_ride-Raises :
    (env : Env) (ride : Ride)
    → ride_status_eq ride.status requested ≡ true
    → Raises OfMatching (match_ride env ride)
unfolding match_ride
match_ride-Raises env ride e = rw e (search (parts, try_candidates-Raises) depth 8)
