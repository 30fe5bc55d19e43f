-- ===== src/Tests/Samples.antt =====
-- A small city: two drivers in one cell, a requested ride, and a foreign lock on the nearer driver.
use realtime_ride_matching_e.Prelude.{ℕ, ◌*◌, ◌+◌, ◌/◌, zero, suc, none, some, List, [], ◌∷◌}
use realtime_ride_matching_e.Config.{default_settings, Env}
use realtime_ride_matching_e.Models.{Driver, available, Ride, requested, matched}
use realtime_ride_matching_e.Storage.Tables.{Tables}
use realtime_ride_matching_e.Program.State.{World, fresh_session}
use realtime_ride_matching_e.RideService.{RideRequest}
use realtime_ride_matching_e.Tests.FixedFloats.{fixed}

abbrev disk : ℕ → ℕ → List ℕ
disk cell zero = cell ∷ []
disk cell (suc k) = cell ∷ 8 ∷ []

abbrev pub city : Env
city = record {
  floats = fixed;
  settings = default_settings fixed;
  latlng_to_cell = λ lat lng resolution. 7;
  grid_disk = disk;
  cell_to_latlng = λ cell. (100, 100);
  numeric_4_2 = λ x. (x + 5) / 10 * 10;
}

abbrev pub near_driver : Driver
near_driver = record {
  id = 1;
  current_lat = 100;
  current_lng = 100;
  h3_index = 7;
  zone_id = 7;
  status = available;
  last_updated_at = 0;
}

abbrev pub far_driver : Driver
far_driver = record {
  id = 2;
  current_lat = 900;
  current_lng = 100;
  h3_index = 7;
  zone_id = 7;
  status = available;
  last_updated_at = 0;
}

abbrev pub waiting_ride : Ride
waiting_ride = record {
  id = 10;
  rider_id = 5;
  driver_id = none;
  status = requested;
  pickup_lat = 100;
  pickup_lng = 100;
  matched_at = none;
  fare = none;
  surge_multiplier = none;
  zone_id = some 7;
  idempotency_key = some "first";
  created_at = 0;
  updated_at = 0;
}

abbrev pub city_tables : Tables
city_tables = record {
  drivers = near_driver ∷ far_driver ∷ [];
  riders = record { id = 5; pickup_lat = 100; pickup_lng = 100; requested_at = 0 } ∷ [];
  rides = waiting_ride ∷ [];
}

abbrev pub city_world : World
city_world = record {
  shared = record {
    db = city_tables;
    locks = record { key = 1; token = 900; expires_at = 9000 } ∷ [];
    clock = 1000;
    calls = 50;
    bus = record { queue = none; connections = []; delivered = [] };
    metrics = record {
      window_size = 500;
      recent = [];
      failed_matches_total = 0;
      lock_contention_total = 0;
    };
  };
  session = fresh_session;
}

abbrev pub retry : RideRequest
retry = record { rider_id = 5; pickup_lat = 100; pickup_lng = 100; idempotency_key = some "first" }

abbrev pub matched_ride : Ride
matched_ride = record waiting_ride {
  id = 11;
  driver_id = some 2;
  status = matched;
  idempotency_key = none;
}

-- The far driver has an active ride, and is marked as available all the same.
abbrev pub clash_world : World
clash_world = record city_world {
  shared = record city_world.shared {
    db = record city_tables { rides = waiting_ride ∷ matched_ride ∷ [] };
  };
}

abbrev pub second : RideRequest
second = record {
  rider_id = 5;
  pickup_lat = 100;
  pickup_lng = 100;
  idempotency_key = some "second";
}

-- No lock is held.
abbrev pub quiet_world : World
quiet_world = record city_world { shared = record city_world.shared { locks = [] } }
