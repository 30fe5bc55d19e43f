-- ===== src/Matching/Reading.antt =====
-- Finding candidates and taking locks writes to no table.
use realtime_ride_matching_e.Prelude.{ℕ, zero, suc, List, [], ◌∷◌, Option}
use realtime_ride_matching_e.Floats.{Float}
use realtime_ride_matching_e.Config.{Env}
use realtime_ride_matching_e.Models.{Driver}
use realtime_ride_matching_e.Program.Commands.{
  Result, ok, err, redis_connection_error, locking_unavailable, Prog,
}
use realtime_ride_matching_e.Program.Issues.{Issues, by_ret, by_raise, issues_rules}
use realtime_ride_matching_e.Program.Rests.{IsReading}
use realtime_ride_matching_e.Repositories.Drivers
use realtime_ride_matching_e.Matching.CandidateSearch.{search_rings, find_ranked_candidates}
use realtime_ride_matching_e.Matching.DriverLock.{acquire_lock}
use realtime_ride_matching_e.Matching.Matcher.{translate_lock_error}

abbrev pub IsReadingProg : {A : Type 0} → Prog A → Type 0
IsReadingProg m = Issues IsReading m

list_available-IsReading : (cells : List ℕ) → IsReadingProg (Drivers.list_available_in_cells cells)
unfolding Drivers.list_available_in_cells
list_available-IsReading [] = by_ret []
list_available-IsReading (c ∷ cells) = search issues_rules

pub search_rings-IsReading :
    (env : Env) (cell rounds k : ℕ) (found : List Driver)
    → IsReadingProg (search_rings env cell rounds k found)
unfolding search_rings
search_rings-IsReading env cell zero k found = by_ret found
search_rings-IsReading env cell (suc rounds) k found =
    search (issues_rules, list_available-IsReading, search_rings-IsReading env cell rounds)

pub find_ranked_candidates-IsReading :
    (env : Env) (lat lng : Float) → IsReadingProg (find_ranked_candidates env lat lng)
unfolding find_ranked_candidates
find_ranked_candidates-IsReading env lat lng = search (issues_rules, search_rings-IsReading)

pub acquire_lock-IsReading : (key ttl : ℕ) → IsReadingProg (acquire_lock key ttl)
unfolding acquire_lock
acquire_lock-IsReading key ttl = search issues_rules

pub translate-IsReading : (r : Result (Option ℕ)) → IsReadingProg (translate_lock_error r)
translate-IsReading (ok token) = by_ret token
translate-IsReading (err redis_connection_error) = by_raise locking_unavailable
translate-IsReading (err e) = by_raise e
