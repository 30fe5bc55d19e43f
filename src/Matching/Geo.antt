-- ===== src/Matching/Geo.antt =====
-- app/matching/geo.py and app/pricing/zones.py
use realtime_ride_matching_e.Prelude.{
  ℕ, zero, suc, not, List, [], ◌∷◌, if◌then◌else◌, select, contains,
}
use realtime_ride_matching_e.Floats.{Float, Floats}
use realtime_ride_matching_e.Config.{Env}

unfoldable pub latlng_to_h3 : Env → Float → Float → ℕ → ℕ
latlng_to_h3 env lat lng resolution = env.latlng_to_cell lat lng resolution

-- set(...) of a list: each cell once.
unfoldable pub set_of : List ℕ → List ℕ
set_of [] = []
set_of (x ∷ xs) = let rest = set_of xs in if contains x rest then rest else x ∷ rest

unfoldable pub difference : List ℕ → List ℕ → List ℕ
difference outer inner = select (λ c. not (contains c inner)) outer

-- The code refuses a negative k, which a natural number rules out.
unfoldable pub cells_within_ring : Env → ℕ → ℕ → List ℕ
unfolding set_of difference
cells_within_ring env h3_index zero = set_of (env.grid_disk h3_index zero)
cells_within_ring env h3_index (suc k) =
    difference (set_of (env.grid_disk h3_index (suc k))) (set_of (env.grid_disk h3_index k))

-- _EARTH_RADIUS_KM
abbrev pub earth_radius_km : Floats → Float
earth_radius_km f = f.decimal 63710088 4

abbrev pub square : Floats → Float → Float
square f x = f.mul x x

unfoldable pub haversine_km : Floats → Float → Float → Float → Float → Float
haversine_km f lat1 lng1 lat2 lng2 =
    let two = f.decimal 20 1 in
    let phi1 = f.radians lat1 in
    let phi2 = f.radians lat2 in
    let d_phi = f.radians (f.sub lat2 lat1) in
    let d_lambda = f.radians (f.sub lng2 lng1) in
    let a =
      f.add (square f (f.sin (f.div d_phi two)))
        (f.mul (f.mul (f.cos phi1) (f.cos phi2)) (square f (f.sin (f.div d_lambda two)))) in
    let c = f.mul two (f.atan2 (f.sqrt a) (f.sqrt (f.sub (f.decimal 10 1) a))) in
    f.mul (earth_radius_km f) c

-- pricing/zones.py
unfoldable pub zone_id_for_point : Env → Float → Float → ℕ → ℕ
unfolding latlng_to_h3
zone_id_for_point env lat lng resolution = latlng_to_h3 env lat lng resolution
