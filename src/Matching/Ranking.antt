-- ===== src/Matching/Ranking.antt =====
-- app/matching/ranking.py. `list.sort` is stable and compares keys by `<` alone: so is this insertion.
use realtime_ride_matching_e.Prelude.{List, [], ◌∷◌, map, if◌then◌else◌}
use realtime_ride_matching_e.Floats.{Float, Floats}
use realtime_ride_matching_e.Models.{Driver}
use realtime_ride_matching_e.Matching.Geo.{haversine_km}

pub record Candidate : Type 0 where
  pub driver : Driver
  pub distance_km : Float

unfoldable pub insert_ranked : Floats → Candidate → List Candidate → List Candidate
insert_ranked f c [] = c ∷ []
insert_ranked f c (x ∷ xs) =
    if f.lt x.distance_km c.distance_km then x ∷ insert_ranked f c xs else c ∷ x ∷ xs

unfoldable pub sort_ranked : Floats → List Candidate → List Candidate
unfolding insert_ranked
sort_ranked f [] = []
sort_ranked f (c ∷ cs) = insert_ranked f c (sort_ranked f cs)

abbrev pub measured : Floats → Float → Float → Driver → Candidate
measured f lat lng d = record {
  driver = d;
  distance_km = haversine_km f lat lng d.current_lat d.current_lng;
}

unfoldable pub rank_candidates : Floats → Float → Float → List Driver → List Candidate
unfolding sort_ranked haversine_km
rank_candidates f lat lng drivers = sort_ranked f (map (measured f lat lng) drivers)
