-- ===== src/Matching/LockFree.antt =====
-- What match_ride does outside acquire_lock and release_lock makes no call to Redis.
use realtime_ride_matching_e.Prelude.{
  ℕ, zero, suc, Bool, true, false, Option, none, some, List, [], ◌∷◌,
}
use realtime_ride_matching_e.Floats.{Float}
use realtime_ride_matching_e.Config.{Env}
use realtime_ride_matching_e.Models.{Driver, Ride, RideStatus}
use realtime_ride_matching_e.Storage.Tables.{Assignment}
use realtime_ride_matching_e.Program.Commands.{
  Result, ok, err, integrity_error, database_error, Prog,
}
use realtime_ride_matching_e.Program.Issues.{Issues, by_ret, by_raise, issues_rules}
use realtime_ride_matching_e.Program.LockFree.{IsLockFree}
use realtime_ride_matching_e.Repositories.Drivers
use realtime_ride_matching_e.Repositories.Rides
use realtime_ride_matching_e.Matching.Ranking.{Candidate}
use realtime_ride_matching_e.Matching.CandidateSearch.{search_rings, find_ranked_candidates}
use realtime_ride_matching_e.Matching.Matcher.{
  require_row, after_commit, settle, take_driver, assign_candidate,
}

abbrev pub IsLockFreeProg : {A : Type 0} → Prog A → Type 0
IsLockFreeProg m = Issues IsLockFree m

list_available-IsLockFree :
    (cells : List ℕ) → IsLockFreeProg (Drivers.list_available_in_cells cells)
unfolding Drivers.list_available_in_cells
list_available-IsLockFree [] = by_ret []
list_available-IsLockFree (c ∷ cells) = search issues_rules

search_rings-IsLockFree :
    (env : Env) (cell rounds k : ℕ) (found : List Driver)
    → IsLockFreeProg (search_rings env cell rounds k found)
unfolding search_rings
search_rings-IsLockFree env cell zero k found = by_ret found
search_rings-IsLockFree env cell (suc rounds) k found =
    search (issues_rules, list_available-IsLockFree, search_rings-IsLockFree env cell rounds)

pub find_ranked_candidates-IsLockFree :
    (env : Env) (lat lng : Float) → IsLockFreeProg (find_ranked_candidates env lat lng)
unfolding find_ranked_candidates
find_ranked_candidates-IsLockFree env lat lng = search (issues_rules, search_rings-IsLockFree)

require_row-IsLockFree : {A : Type 0} (o : Option A) → IsLockFreeProg (require_row o)
require_row-IsLockFree none = by_raise database_error
require_row-IsLockFree (some a) = by_ret a

get_driver-IsLockFree : (id : ℕ) (fresh : Bool) → IsLockFreeProg (Drivers.get_by_id id fresh)
unfolding Drivers.get_by_id
get_driver-IsLockFree id fresh = search issues_rules

transition-IsLockFree :
    (id : ℕ) (from : List RideStatus) (to : RideStatus) (a : Option Assignment)
    → IsLockFreeProg (Rides.transition_status id from to a)
unfolding Rides.transition_status
transition-IsLockFree id from to a = search issues_rules

ruleset parts = (issues_rules, require_row-IsLockFree, get_driver-IsLockFree, transition-IsLockFree)

after_commit-IsLockFree :
    (ride : Ride) (driver : Driver) (r : Result (Unit {0}))
    → IsLockFreeProg (after_commit ride driver r)
after_commit-IsLockFree ride driver (ok u) = search parts
after_commit-IsLockFree ride driver (err integrity_error) = search parts
after_commit-IsLockFree ride driver (err e) = by_raise e

settle-IsLockFree :
    (ride : Ride) (driver : Driver) (done : Bool) → IsLockFreeProg (settle ride driver done)
settle-IsLockFree ride driver true = search (parts, after_commit-IsLockFree)
settle-IsLockFree ride driver false = search parts

take_driver-IsLockFree : (ride : Ride) (driver : Driver) → IsLockFreeProg (take_driver ride driver)
unfolding take_driver
take_driver-IsLockFree ride driver = search (parts, settle-IsLockFree) depth 8

pub assign_candidate-IsLockFree :
    (ride : Ride) (candidate : Candidate) → IsLockFreeProg (assign_candidate ride candidate)
unfolding assign_candidate
assign_candidate-IsLockFree ride candidate = search (parts, take_driver-IsLockFree) depth 8
