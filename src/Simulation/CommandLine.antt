-- ===== src/Simulation/CommandLine.antt =====
-- app/simulation/__main__.py: the flags, the configuration made of them, and the limits of the
-- connection pool.
use realtime_ride_matching_e.Prelude.{ℕ, ◌*◌, Option, none, String}
use realtime_ride_matching_e.Floats.{Float, Floats}
use realtime_ride_matching_e.Simulation.Settings.{SimulationConfig, default_config}

-- argparse.Namespace, as _build_arg_parser declares it
pub record Args : Type 0 where
  pub api_url : String
  pub num_drivers : ℕ
  pub num_riders : ℕ
  pub hotspot_fraction : Float
  pub area_center_lat : Float
  pub area_center_lng : Float
  pub area_radius_km : Float
  pub hotspot_radius_km : Option Float
  pub request_rate : Float
  pub burst_size : ℕ
  pub duration_seconds : Float
  pub driver_speed_kmh : Float
  pub movement_interval_seconds : Float
  pub ride_duration_min_seconds : Float
  pub ride_duration_max_seconds : Float
  pub cancel_fraction : Float
  pub seed : Option ℕ
  pub log_level : String

-- What parse_args gives where no flag is set.
unfoldable pub default_args : Floats → Args
unfolding default_config
default_args f =
    let defaults = default_config f in
    record {
      api_url = defaults.api_url;
      num_drivers = defaults.num_drivers;
      num_riders = defaults.num_riders;
      hotspot_fraction = defaults.hotspot_fraction;
      area_center_lat = defaults.area_center_lat;
      area_center_lng = defaults.area_center_lng;
      area_radius_km = defaults.area_radius_km;
      hotspot_radius_km = none;
      request_rate = defaults.request_rate;
      burst_size = defaults.burst_size;
      duration_seconds = defaults.duration_seconds;
      driver_speed_kmh = defaults.driver_speed_kmh;
      movement_interval_seconds = defaults.movement_interval_seconds;
      ride_duration_min_seconds = defaults.ride_duration_min_seconds;
      ride_duration_max_seconds = defaults.ride_duration_max_seconds;
      cancel_fraction = defaults.cancel_fraction;
      seed = none;
      log_level = "WARNING";
    }

unfoldable pub config_from_args : Args → SimulationConfig
config_from_args args = record {
  api_url = args.api_url;
  num_drivers = args.num_drivers;
  num_riders = args.num_riders;
  area_center_lat = args.area_center_lat;
  area_center_lng = args.area_center_lng;
  area_radius_km = args.area_radius_km;
  hotspot_fraction = args.hotspot_fraction;
  hotspot_center_lat = none;
  hotspot_center_lng = none;
  hotspot_radius_km = args.hotspot_radius_km;
  request_rate = args.request_rate;
  burst_size = args.burst_size;
  duration_seconds = args.duration_seconds;
  driver_speed_kmh = args.driver_speed_kmh;
  movement_interval_seconds = args.movement_interval_seconds;
  ride_duration_min_seconds = args.ride_duration_min_seconds;
  ride_duration_max_seconds = args.ride_duration_max_seconds;
  cancel_fraction = args.cancel_fraction;
  seed = args.seed;
}

-- httpx.Limits
pub record Limits : Type 0 where
  pub max_connections : ℕ
  pub max_keepalive_connections : ℕ

unfoldable pub limits : SimulationConfig → Limits
limits config = record {
  max_connections = config.burst_size * 4;
  max_keepalive_connections = config.burst_size * 2;
}
