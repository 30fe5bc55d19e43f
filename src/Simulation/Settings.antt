-- ===== src/Simulation/Settings.antt =====
-- app/simulation/config.py, and how app/simulation/__main__.py makes a configuration of the command
-- line's flags.
use realtime_ride_matching_e.Prelude.{
  ℕ, Option, none, some, List, [], ◌∷◌, String, if◌then◌else◌, case_option,
}
use realtime_ride_matching_e.Floats.{Float, Floats, float_le}
use realtime_ride_matching_e.Config.{Env}
use realtime_ride_matching_e.Matching.Geo.{latlng_to_h3, cells_within_ring, haversine_km}
use realtime_ride_matching_e.Simulation.Generators.{Point}

pub record SimulationConfig : Type 0 where
  pub api_url : String
  pub num_drivers : ℕ
  pub num_riders : ℕ
  pub area_center_lat : Float
  pub area_center_lng : Float
  pub area_radius_km : Float
  pub hotspot_fraction : Float
  pub hotspot_center_lat : Option Float
  pub hotspot_center_lng : Option Float
  pub hotspot_radius_km : Option Float
  pub request_rate : Float
  pub burst_size : ℕ
  pub duration_seconds : Float
  pub driver_speed_kmh : Float
  pub movement_interval_seconds : Float
  pub ride_duration_min_seconds : Float
  pub ride_duration_max_seconds : Float
  pub cancel_fraction : Float
  pub seed : Option ℕ

-- max() of a list with a first item: the first of the greatest items.
unfoldable pub max_of : Floats → Float → List Float → Float
max_of f best [] = best
max_of f best (x ∷ xs) = max_of f (if f.lt best x then x else best) xs

abbrev pub distances_from : Env → Float → Float → List ℕ → List Float
distances_from env lat lng [] = []
distances_from env lat lng (cell ∷ cells) =
    let (cell_lat, cell_lng) = env.cell_to_latlng cell in
    haversine_km env.floats lat lng cell_lat cell_lng ∷ distances_from env lat lng cells

abbrev pub rounded_max : Floats → List Float → Float
rounded_max f [] = f.decimal 10 1
rounded_max f (d ∷ ds) = f.round (max_of f d ds) 2

-- `[]` is the case of an empty outer ring.
unfoldable pub default_hotspot_radius_km : Env → Float → Float → Float
unfolding latlng_to_h3 cells_within_ring haversine_km max_of
default_hotspot_radius_km env center_lat center_lng =
    let center_cell = latlng_to_h3 env center_lat center_lng env.settings.h3_resolution in
    let outer_ring = cells_within_ring env center_cell env.settings.match_max_ring in
    rounded_max env.floats (distances_from env center_lat center_lng outer_ring)

-- SimulationConfig.area_center and so on
abbrev pub area_center : SimulationConfig → Point
area_center c = record { lat = c.area_center_lat; lng = c.area_center_lng }

abbrev pub or_default : Option Float → Float → Float
or_default none d = d
or_default (some x) d = x

unfoldable pub resolved_hotspot_center : SimulationConfig → Point
resolved_hotspot_center c = record {
  lat = or_default c.hotspot_center_lat c.area_center_lat;
  lng = or_default c.hotspot_center_lng c.area_center_lng;
}

unfoldable pub resolved_hotspot_radius_km : Env → SimulationConfig → Float
unfolding default_hotspot_radius_km
resolved_hotspot_radius_km env c =
    case_option c.hotspot_radius_km
      (default_hotspot_radius_km env c.area_center_lat c.area_center_lng) (λ radius. radius)

unfoldable pub tick_interval_seconds : Floats → SimulationConfig → Float
tick_interval_seconds f c =
    if float_le f c.request_rate (f.of_int 0)
    then f.infinity
    else f.div (f.of_int c.burst_size) c.request_rate

-- DEFAULT_AREA_CENTER_LNG is negative: 0 - 122.4194.
unfoldable pub default_config : Floats → SimulationConfig
default_config f = record {
  api_url = "http://localhost:8000";
  num_drivers = 50;
  num_riders = 500;
  area_center_lat = f.decimal 377749 4;
  area_center_lng = f.sub (f.decimal 0 1) (f.decimal 1224194 4);
  area_radius_km = f.decimal 50 1;
  hotspot_fraction = f.decimal 7 1;
  hotspot_center_lat = none;
  hotspot_center_lng = none;
  hotspot_radius_km = none;
  request_rate = f.decimal 50 1;
  burst_size = 5;
  duration_seconds = f.decimal 600 1;
  driver_speed_kmh = f.decimal 200 1;
  movement_interval_seconds = f.decimal 20 1;
  ride_duration_min_seconds = f.decimal 50 1;
  ride_duration_max_seconds = f.decimal 150 1;
  cancel_fraction = f.decimal 1 1;
  seed = none;
}
