-- ===== src/Matching/CandidateSearch.antt =====
-- app/matching/candidate_search.py: rings of cells, nearest first, until enough drivers are found.
use realtime_ride_matching_e.Prelude.{ℕ, zero, suc, ◌+◌, List, [], if◌then◌else◌, leb, length}
use realtime_ride_matching_e.Floats.{Float}
use realtime_ride_matching_e.Config.{Env}
use realtime_ride_matching_e.Models.{Driver}
use realtime_ride_matching_e.Storage.Tables.{driver_id_of}
use realtime_ride_matching_e.Program.Commands.{Prog, ret, ◌>>=◌}
use realtime_ride_matching_e.Program.Effects.{put_all}
use realtime_ride_matching_e.Repositories.Drivers.{list_available_in_cells}
use realtime_ride_matching_e.Matching.Geo.{latlng_to_h3, cells_within_ring}
use realtime_ride_matching_e.Matching.Ranking.{Candidate, rank_candidates}

-- for k in range(k, k + rounds): the dict `candidates` by driver id, in insertion order
unfoldable pub search_rings : Env → ℕ → ℕ → ℕ → List Driver → Prog (List Driver)
search_rings env rider_cell zero k candidates = ret candidates
search_rings env rider_cell (suc rounds) k candidates = do
  found ← list_available_in_cells (cells_within_ring env rider_cell k)
  let all = put_all driver_id_of candidates found
  let rest = search_rings env rider_cell rounds (k + 1) all
  if leb env.settings.match_target_candidates (length all) then ret all else rest

unfoldable pub find_ranked_candidates : Env → Float → Float → Prog (List Candidate)
find_ranked_candidates env rider_lat rider_lng = do
  let rider_cell = latlng_to_h3 env rider_lat rider_lng env.settings.h3_resolution
  candidates ← search_rings env rider_cell (env.settings.match_max_ring + 1) 0 []
  ret (rank_candidates env.floats rider_lat rider_lng candidates)
