-- ===== src/Tests/Simulated.antt =====
-- A small simulation against a server that matches every ride.
use realtime_ride_matching_e.Prelude.{
  ℕ, ◌+◌, ◌≤◌, ◌≡◌, refl, true, Bool, Option, none, some, List, [], ◌∷◌,
}
use realtime_ride_matching_e.Observability.Metrics.{matched}
use realtime_ride_matching_e.Simulation.Generators.{Rng}
use realtime_ride_matching_e.Simulation.Reporting.{count_outcome, RequestOutcome, summarize}
use realtime_ride_matching_e.Simulation.Settings.{
  default_hotspot_radius_km, resolved_hotspot_center, resolved_hotspot_radius_km, SimulationConfig,
  default_config,
}
use realtime_ride_matching_e.Simulation.Client.{Outside}
use realtime_ride_matching_e.Simulation.Runner.{Simulation, Setup}
use realtime_ride_matching_e.Simulation.Bursts.{movement, lifecycle, run_simulation}
use realtime_ride_matching_e.Simulation.Running.{new_simulation, run_simulation_ends}
use realtime_ride_matching_e.Tests.FixedFloats.{fixed}
use realtime_ride_matching_e.Tests.Samples.{city}

-- Draws that are always the lower bound.
abbrev low_draws : Rng
low_draws = record { uniform = λ a b s. (a, s + 1); random = λ s. (500, s + 1) }

-- Each reply is a 201 with the number of the request as its id, and with driver 2.
abbrev generous : Outside
generous = record {
  send = λ request world. (
    some (record {
      status_code = 201;
      is_json = true;
      body = record { id = some world; driver_id = some 2 };
    }),
    world + 1,
  );
  clock = λ world. (world, world + 1);
}

abbrev small_config : SimulationConfig
small_config = record (default_config fixed) { num_drivers = 1; num_riders = 3; burst_size = 2 }

abbrev small : Setup
small = record { env = city; rng = low_draws; outside = generous; config = small_config }

abbrev fresh : Simulation
fresh = new_simulation 100 0

-- One ride is due at the reading 100 of the clock, the other is not.
abbrev two_pending : Simulation
two_pending = record fresh {
  pending_rides =
      record { ride_id = 1; due_at = 90; cancel = true }
      ∷ record { ride_id = 2; due_at = 120; cancel = true }
      ∷ [];
}

run_simulation_ends_example :
    (r : Bool × List RequestOutcome) × (run_simulation small
        ((movement ∷ lifecycle ∷ []) ∷ [])
        (new_simulation 100 0)
      ≡ some r)
    × (r.0 ≡ true
        → ((summarize fixed r.1).total_requests ≤ 3)
          × ((summarize fixed r.1).matched_requests
                + (summarize fixed r.1).unmatched_requests
                + (summarize fixed r.1).errors
              ≡ (summarize fixed r.1).total_requests))
unfolding default_config
run_simulation_ends_example = run_simulation_ends small ((movement ∷ lifecycle ∷ []) ∷ []) 100 0

abbrev matched_of : Option (Bool × List RequestOutcome) → ℕ
matched_of none = 0
matched_of (some r) = count_outcome matched r.1

-- All three riders are fired and matched, in two bursts.
run_simulation-runs : matched_of (run_simulation small [] fresh) ≡ 3
unfolding run_simulation default_config default_hotspot_radius_km resolved_hotspot_center
    resolved_hotspot_radius_km
run_simulation-runs = refl
