-- ===== src/Simulation/Generators.antt =====
-- app/simulation/generators.py. random.Random is a parameter: its state is a number, and each draw
-- gives a float and the next state.
use realtime_ride_matching_e.Prelude.{ℕ, zero, suc, Bool, not, List, [], ◌∷◌, if◌then◌else◌}
use realtime_ride_matching_e.Floats.{Float, Floats, float_le}

pub record Rng : Type 0 where
  pub uniform : Float → Float → ℕ → Float × ℕ
  pub random : ℕ → Float × ℕ

pub record Point : Type 0 where
  pub lat : Float
  pub lng : Float

-- KM_PER_DEGREE_LAT, math.pi
abbrev pub km_per_degree_lat : Floats → Float
km_per_degree_lat f = f.decimal 11132 2

abbrev pub pi : Floats → Float
pi f = f.decimal 3141592653589793 15

-- A float is true where it is not 0.0.
abbrev pub is_true : Floats → Float → Bool
is_true f x = not (f.eq x (f.of_int 0))

unfoldable pub km_per_degree_lng : Floats → Float → Float
km_per_degree_lng f lat = f.mul (km_per_degree_lat f) (f.cos (f.radians lat))

-- The point at a distance and an angle, by degrees of the given lengths.
abbrev pub offset_from : Floats → Point → Float → Float → Point
offset_from f start distance_km angle =
    let km_per_lng = km_per_degree_lng f start.lat in
    record {
      lat = f.add start.lat (f.div (f.mul distance_km (f.cos angle)) (km_per_degree_lat f));
      lng = f.add start.lng (
          if is_true f km_per_lng
          then f.div (f.mul distance_km (f.sin angle)) km_per_lng
          else f.decimal 0 1);
    }

unfoldable pub random_point_in_radius : Floats → Rng → Point → Float → ℕ → Point × ℕ
unfolding km_per_degree_lng
random_point_in_radius f rng center radius_km s =
    if float_le f radius_km (f.of_int 0)
    then (center, s)
    else let (angle, s') = rng.uniform (f.of_int 0) (f.mul (f.of_int 2) (pi f)) s in
      let (u, s'') = rng.uniform (f.of_int 0) (f.of_int 1) s' in
      (offset_from f center (f.mul radius_km (f.sqrt u)) angle, s'')

-- The keyword arguments of random_point_biased.
pub record Bias : Type 0 where
  pub area_center : Point
  pub area_radius_km : Float
  pub hotspot_center : Point
  pub hotspot_radius_km : Float
  pub hotspot_fraction : Float

unfoldable pub random_point_biased : Floats → Rng → Bias → ℕ → Point × ℕ
unfolding random_point_in_radius
random_point_biased f rng bias s =
    let (draw, s') = rng.random s in
    if f.lt draw bias.hotspot_fraction
    then random_point_in_radius f rng bias.hotspot_center bias.hotspot_radius_km s'
    else random_point_in_radius f rng bias.area_center bias.area_radius_km s'

unfoldable pub generate_points : Floats → Rng → Point → Float → ℕ → ℕ → List Point × ℕ
unfolding random_point_in_radius
generate_points f rng center radius_km zero s = ([], s)
generate_points f rng center radius_km (suc count) s =
    let (point, s') = random_point_in_radius f rng center radius_km s in
    let (points, s'') = generate_points f rng center radius_km count s' in (point ∷ points, s'')
