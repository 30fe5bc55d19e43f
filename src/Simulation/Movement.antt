-- ===== src/Simulation/Movement.antt =====
-- app/simulation/movement.py
use realtime_ride_matching_e.Prelude.{ℕ, ◌||◌, if◌then◌else◌}
use realtime_ride_matching_e.Floats.{Float, Floats, float_le}
use realtime_ride_matching_e.Simulation.Generators.{
  Rng, Point, km_per_degree_lat, km_per_degree_lng, pi, is_true, offset_from,
}

-- _clamp_to_area
unfoldable pub clamp_to_area : Floats → Point → Point → Float → Point
unfolding km_per_degree_lng
clamp_to_area f position area_center area_radius_km =
    let km_per_lng = km_per_degree_lng f area_center.lat in
    let dx_km = f.mul (f.sub position.lng area_center.lng) km_per_lng in
    let dy_km = f.mul (f.sub position.lat area_center.lat) (km_per_degree_lat f) in
    let distance_from_center = f.hypot dx_km dy_km in
    if float_le f distance_from_center area_radius_km || f.eq distance_from_center (f.of_int 0)
    then position
    else let scale = f.div area_radius_km distance_from_center in
      record {
        lat = f.add area_center.lat (f.div (f.mul dy_km scale) (km_per_degree_lat f));
        lng =
            if is_true f km_per_lng
            then f.add area_center.lng (f.div (f.mul dx_km scale) km_per_lng)
            else area_center.lng;
      }

-- The keyword arguments of step.
pub record Motion : Type 0 where
  pub area_center : Point
  pub area_radius_km : Float
  pub speed_kmh : Float
  pub interval_seconds : Float

unfoldable pub step : Floats → Rng → Motion → Point → ℕ → Point × ℕ
unfolding clamp_to_area km_per_degree_lng
step f rng motion position s =
    let max_distance_km =
      f.mul motion.speed_kmh (f.div motion.interval_seconds (f.decimal 36000 1)) in
    let (distance_km, s') = rng.uniform (f.of_int 0) max_distance_km s in
    let (angle, s'') = rng.uniform (f.of_int 0) (f.mul (f.of_int 2) (pi f)) s' in
    let moved = offset_from f position distance_km angle in
    (clamp_to_area f moved motion.area_center motion.area_radius_km, s'')
