-- ===== src/Tests/Searches.antt =====
-- A search for candidates in the small city.
use realtime_ride_matching_e.Prelude.{zero, suc, [], ◌∷◌, arith}
use realtime_ride_matching_e.Models.{Driver, busy}
use realtime_ride_matching_e.Program.State.{Shared}
use realtime_ride_matching_e.Program.Cases.{started}
use realtime_ride_matching_e.Program.Exec.{run}
use realtime_ride_matching_e.Matching.Geo.{latlng_to_h3}
use realtime_ride_matching_e.Matching.CandidateSearch.{find_ranked_candidates}
use realtime_ride_matching_e.Matching.Search.{HasUniqueIds, IsNested}
use realtime_ride_matching_e.Matching.Candidates.{Found, find_ranked_candidates-Found}
use realtime_ride_matching_e.Tests.FixedFloats.{fixed-IsOrdered}
use realtime_ride_matching_e.Tests.Reference.{reliable}
use realtime_ride_matching_e.Tests.Samples.{near_driver, far_driver, city, city_world}

-- In the cell next to the rider's, and one who is not free.
abbrev outer_driver : Driver
outer_driver = record near_driver { id = 3; h3_index = 8 }

abbrev busy_driver : Driver
busy_driver = record near_driver { id = 4; status = busy }

abbrev town : Shared
town = record city_world.shared {
  db = record city_world.shared.db {
    drivers = outer_driver ∷ far_driver ∷ busy_driver ∷ near_driver ∷ [];
  };
}

town_ids : HasUniqueIds town.db.drivers
town_ids id = ground arith

city_disks : IsNested city 7
city_disks zero c h = ground (arith, h)
city_disks (suc k) c h = h

find_ranked_candidates-Found_example :
    Found city 100 100
      (latlng_to_h3 city 100 100 8)
      town
      (run ⦃p = reliable⦄ (find_ranked_candidates city 100 100) (started town))
unfolding latlng_to_h3
find_ranked_candidates-Found_example =
    find_ranked_candidates-Found ⦃p = reliable⦄ city 100 100 town town_ids city_disks
      fixed-IsOrdered.lt_asymm
