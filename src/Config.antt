-- ===== src/Config.antt =====
-- app/config.py: the settings that the modelled code reads, with their defaults. Durations that
-- the code compares with clock readings are in milliseconds.
use realtime_ride_matching_e.Prelude.{ℕ, List}
use realtime_ride_matching_e.Floats.{Float, Floats}

pub record Settings : Type 0 where
  pub h3_resolution : ℕ
  pub match_target_candidates : ℕ
  pub match_max_ring : ℕ
  pub lock_ttl_ms : ℕ
  pub surge_zone_resolution : ℕ
  pub surge_demand_window_seconds : ℕ
  pub surge_sensitivity : Float
  pub surge_max_multiplier : Float
  pub dashboard_event_queue_size : ℕ
  pub metrics_window_size : ℕ

unfoldable pub default_settings : Floats → Settings
default_settings f = record {
  h3_resolution = 8;
  match_target_candidates = 5;
  match_max_ring = 3;
  lock_ttl_ms = 5000;
  surge_zone_resolution = 6;
  surge_demand_window_seconds = 300;
  surge_sensitivity = f.decimal 5 1;
  surge_max_multiplier = f.decimal 30 1;
  dashboard_event_queue_size = 1000;
  metrics_window_size = 500;
}

-- What the code takes from outside: floats, the h3 package and its settings.
pub record Env : Type 0 where
  pub floats : Floats
  pub settings : Settings
  -- h3.latlng_to_cell, h3.grid_disk and h3.cell_to_latlng; a cell address is its 64-bit index.
  pub latlng_to_cell : Float → Float → ℕ → ℕ
  pub grid_disk : ℕ → ℕ → List ℕ
  pub cell_to_latlng : ℕ → Float × Float
  -- What a column of type Numeric(4, 2) gives back for a float that is stored in it.
  pub numeric_4_2 : Float → Float
