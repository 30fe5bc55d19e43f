-- ===== src/Simulation/Running.antt =====
-- A whole simulation, from its start to its results.
use realtime_ride_matching_e.Prelude.{
  ℕ, suc, ◌+◌, ◌-◌, ◌≤◌, ◌≡◌, refl, ap, Bool, true, false, Option, none, some, List, [], ◌∷◌,
  length, arith, Bool-cases, Option-cases, inl, inr,
}
use realtime_ride_matching_e.Simulation.Generators.{Point, generate_points}
use realtime_ride_matching_e.Simulation.Reporting.{RequestOutcome, summarize}
use realtime_ride_matching_e.Simulation.Settings.{area_center}
use realtime_ride_matching_e.Simulation.Client.{Net, Body, create_sim_driver}
use realtime_ride_matching_e.Simulation.Summary.{summarize_lem}
use realtime_ride_matching_e.Simulation.Runner.{
  Simulation, Setup, read_clock, track, create_at, create_drivers,
}
use realtime_ride_matching_e.Simulation.Bursts.{Tick, run_simulation}
use realtime_ride_matching_e.Simulation.Loop.{
  SameCounts, SameCounts-trans, read_clock-SameCounts, request_loop-Ends,
}

-- Simulation.__init__, with a client that has sent nothing.
abbrev pub new_simulation : (world rng : ℕ) → Simulation
new_simulation world rng = record {
  net = record { world = world; sent = [] };
  rng = rng;
  results = [];
  drivers = [];
  pending_rides = [];
  riders_fired = 0;
}

module _ (setup : Setup) where
  track-SameCounts :
      (s : Simulation) (point : Point) (made : Option Body × Net)
      → SameCounts s (track setup s point made).1
  track-SameCounts s point (none, net) = record { results = refl; fired = refl }
  track-SameCounts s point (some body, net) = elim (Option-cases body.id) [
    | inl e ↦ rw e (record { results = refl; fired = refl })
    | inr (id, e) ↦ rw e (record { results = refl; fired = refl })
  ]

  create_at-SameCounts :
      (points : List Point) (s : Simulation) → SameCounts s (create_at setup points s).1
  unfolding create_at
  create_at-SameCounts [] s = record { results = refl; fired = refl }
  create_at-SameCounts (point ∷ points) s =
      let made = create_sim_driver setup.outside point.lat point.lng s.net in
      let first = track-SameCounts s point made in
      elim (Bool-cases (track setup s point made).0) [
        | inl e ↦
            rw e (SameCounts-trans first (create_at-SameCounts points (track setup s point made).1))
        | inr e ↦ rw e first
      ]

  create_drivers-SameCounts : (s : Simulation) → SameCounts s (create_drivers setup s).1
  unfolding create_drivers
  create_drivers-SameCounts s =
      let (points, rng) =
        generate_points setup.env.floats setup.rng (area_center setup.config)
          setup.config.area_radius_km setup.config.num_drivers s.rng in
      let a = create_at-SameCounts points (record s { rng = rng }) in
      record { results = a.results; fired = a.fired }

  -- A new simulation comes to an end, whatever the server replies and whatever ticks the other
  -- threads run; if it raises nothing, the outcomes that its summary counts are at most as many as
  -- the riders that it was asked for, and each is counted once.
  pub run_simulation_ends :
      (waits : List (List Tick)) (world rng : ℕ)
      → (r : Bool × List RequestOutcome) × (run_simulation setup waits (new_simulation world rng)
          ≡ some r)
        × (r.0 ≡ true
            → ((summarize setup.env.floats r.1).total_requests ≤ setup.config.num_riders)
              × ((summarize setup.env.floats r.1).matched_requests
                    + (summarize setup.env.floats r.1).unmatched_requests
                    + (summarize setup.env.floats r.1).errors
                  ≡ (summarize setup.env.floats r.1).total_requests))
  unfolding run_simulation
  run_simulation_ends waits world rng =
      let s = new_simulation world rng in
      let made = create_drivers setup s in
      let a = create_drivers-SameCounts s in
      let b = read_clock-SameCounts setup made.1 in
      let (r, e, ends) =
        request_loop-Ends setup
          (suc (setup.config.num_riders - (read_clock setup made.1).1.riders_fired)) waits
          (setup.env.floats.add (read_clock setup made.1).0 setup.config.duration_seconds)
          (read_clock setup made.1).1 (omega arith) in
      elim (Bool-cases made.0) [
        | inr bad ↦ ((false, made.1.results), rw bad refl, λ g. cc)
        | inl fine ↦ (
          (r.0, r.1.results),
          rw (fine, e) refl,
          λ g.
              let (cover, total) = summarize_lem setup.env.floats r.1.results in
              (
                omega (
                  arith,
                  total,
                  ends.recorded g,
                  a.fired,
                  b.fired,
                  ap length a.results,
                  ap length b.results,
                  ends.within (omega (arith, a.fired, b.fired)),
                ),
                cover,
              ),
        )
      ]
