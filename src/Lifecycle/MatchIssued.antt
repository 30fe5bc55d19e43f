-- ===== src/Lifecycle/MatchIssued.antt =====
-- match_ride of app/matching/matcher.py issues lawful commands only.
use realtime_ride_matching_e.Prelude.{
  ℕ, zero, suc, Bool, true, false, Option, none, some, List, [], ◌∷◌,
}
use realtime_ride_matching_e.Config.{Env}
use realtime_ride_matching_e.Models.{Driver, Ride, requested, matched}
use realtime_ride_matching_e.Program.Commands.{
  Result, ok, err, Prog, call, lift, integrity_error, locking_unavailable, redis_connection_error,
  database_error, update_ride,
}
use realtime_ride_matching_e.Program.Issues.{
  Issues, by_ret, by_raise, Issues-call, Issues-bind, Issues-lift, issues_rules,
}
use realtime_ride_matching_e.Lifecycle.{IsLawful, match_requested}
use realtime_ride_matching_e.Matching.Ranking.{Candidate}
use realtime_ride_matching_e.Matching.CandidateSearch.{search_rings, find_ranked_candidates}
use realtime_ride_matching_e.Matching.DriverLock.{acquire_lock, release_lock}
use realtime_ride_matching_e.Matching.Matcher.{
  assign_candidate, settle, take_driver, after_commit, try_candidates, translate_lock_error,
  match_ride, require_row,
}
use realtime_ride_matching_e.Repositories.Drivers
use realtime_ride_matching_e.Repositories.Rides
use realtime_ride_matching_e.Floats.{Float}
use realtime_ride_matching_e.Storage.Tables.{Assignment}

abbrev pub IsLawfulProg : {A : Type 0} → Prog A → Type 0
IsLawfulProg m = Issues IsLawful m

list_available-IsLawful : (cells : List ℕ) → IsLawfulProg (Drivers.list_available_in_cells cells)
unfolding Drivers.list_available_in_cells
list_available-IsLawful [] = by_ret []
list_available-IsLawful (c ∷ cells) = search issues_rules

search_rings-IsLawful :
    (env : Env) (cell rounds k : ℕ) (found : List Driver)
    → IsLawfulProg (search_rings env cell rounds k found)
unfolding search_rings
search_rings-IsLawful env cell zero k found = by_ret found
search_rings-IsLawful env cell (suc rounds) k found =
    search (issues_rules, list_available-IsLawful, search_rings-IsLawful env cell rounds)

find_ranked_candidates-IsLawful :
    (env : Env) (lat lng : Float) → IsLawfulProg (find_ranked_candidates env lat lng)
unfolding find_ranked_candidates
find_ranked_candidates-IsLawful env lat lng = search (issues_rules, search_rings-IsLawful)

acquire_lock-IsLawful : (key ttl : ℕ) → IsLawfulProg (acquire_lock key ttl)
unfolding acquire_lock
acquire_lock-IsLawful key ttl = search issues_rules

release_lock-IsLawful : (key token : ℕ) → IsLawfulProg (release_lock key token)
unfolding release_lock
release_lock-IsLawful key token = search issues_rules

translate-IsLawful : (r : Result (Option ℕ)) → IsLawfulProg (translate_lock_error r)
translate-IsLawful (ok token) = by_ret token
translate-IsLawful (err redis_connection_error) = by_raise locking_unavailable
translate-IsLawful (err e) = by_raise e

pub require_row-IsLawful : {A : Type 0} (o : Option A) → IsLawfulProg (require_row o)
require_row-IsLawful none = by_raise database_error
require_row-IsLawful (some a) = by_ret a

pub get_driver-IsLawful : (id : ℕ) (fresh : Bool) → IsLawfulProg (Drivers.get_by_id id fresh)
unfolding Drivers.get_by_id
get_driver-IsLawful id fresh = search issues_rules

pub get_ride-IsLawful : (id : ℕ) → IsLawfulProg (Rides.get_by_id id)
unfolding Rides.get_by_id
get_ride-IsLawful id = search issues_rules

ruleset parts = (
  issues_rules, find_ranked_candidates-IsLawful, acquire_lock-IsLawful, release_lock-IsLawful,
  translate-IsLawful, require_row-IsLawful, get_driver-IsLawful, get_ride-IsLawful,
)

after_commit-IsLawful :
    (ride : Ride) (driver : Driver) (r : Result (Unit {0}))
    → IsLawfulProg (after_commit ride driver r)
after_commit-IsLawful ride driver (ok u) = search parts
after_commit-IsLawful ride driver (err integrity_error) = search parts
after_commit-IsLawful ride driver (err e) = by_raise e

match_transition-IsLawful :
    (id : ℕ) (a : Assignment)
    → IsLawfulProg (Rides.transition_status id (requested ∷ []) matched (some a))
unfolding Rides.transition_status
match_transition-IsLawful id a =
    Issues-bind (call (update_ride id (requested ∷ []) matched (some a))) lift
      (Issues-call (update_ride id (requested ∷ []) matched (some a)) ((match_requested, tt), tt))
      Issues-lift

settle-IsLawful :
    (ride : Ride) (driver : Driver) (done : Bool) → IsLawfulProg (settle ride driver done)
settle-IsLawful ride driver true = search (parts, after_commit-IsLawful)
settle-IsLawful ride driver false = search parts

take_driver-IsLawful : (ride : Ride) (driver : Driver) → IsLawfulProg (take_driver ride driver)
unfolding take_driver
take_driver-IsLawful ride driver =
    search (parts, match_transition-IsLawful, settle-IsLawful) depth 8

assign_candidate-IsLawful :
    (ride : Ride) (candidate : Candidate) → IsLawfulProg (assign_candidate ride candidate)
unfolding assign_candidate
assign_candidate-IsLawful ride candidate = search (parts, take_driver-IsLawful) depth 8

try_candidates-IsLawful :
    (env : Env) (ride : Ride) (cs : List Candidate) → IsLawfulProg (try_candidates env ride cs)
unfolding try_candidates
try_candidates-IsLawful env ride [] = search parts
try_candidates-IsLawful env ride (c ∷ cs) =
    search (parts, assign_candidate-IsLawful, try_candidates-IsLawful env ride cs) depth 12

-- Matching asks for no other move than that of a requested ride to `matched`.
pub match_ride-IsLawful : (env : Env) (ride : Ride) → IsLawfulProg (match_ride env ride)
unfolding match_ride
match_ride-IsLawful env ride = search (parts, try_candidates-IsLawful) depth 8
