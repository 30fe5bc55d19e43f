-- ===== src/Simulation/Runner.antt =====
-- app/simulation/runner.py. A tick of each loop is one function on the simulation's state; the thread
-- pools run their tasks in the order of the list, which is one of their orders.
use realtime_ride_matching_e.Prelude.{
  ℕ, Bool, true, false, Option, none, some, List, [], ◌∷◌, ◌++◌, if◌then◌else◌, select,
}
use realtime_ride_matching_e.Floats.{Float, Floats, float_le}
use realtime_ride_matching_e.Config.{Env}
use realtime_ride_matching_e.Simulation.Generators.{Rng, Point, generate_points}
use realtime_ride_matching_e.Simulation.Movement.{Motion, step}
use realtime_ride_matching_e.Simulation.Reporting.{RequestOutcome}
use realtime_ride_matching_e.Simulation.Settings.{SimulationConfig, area_center}
use realtime_ride_matching_e.Simulation.Client.{
  Body, Outside, Net, create_sim_driver, update_sim_location, cancel_sim_ride, complete_sim_ride,
}

pub record TrackedDriver : Type 0 where
  pub id : ℕ
  pub position : Point

pub record PendingLifecycle : Type 0 where
  pub ride_id : ℕ
  pub due_at : Float
  pub cancel : Bool

-- The attributes of Simulation that change. `rng` is the state of its generator.
pub record Simulation : Type 0 where
  pub net : Net
  pub rng : ℕ
  pub results : List RequestOutcome
  pub drivers : List TrackedDriver
  pub pending_rides : List PendingLifecycle
  pub riders_fired : ℕ

-- The client, the configuration and random.Random, which do not change.
pub record Setup : Type 0 where
  pub env : Env
  pub rng : Rng
  pub outside : Outside
  pub config : SimulationConfig

module _ (setup : Setup) where
  abbrev f : Floats
  f = setup.env.floats

  -- time.monotonic(), time.perf_counter()
  unfoldable pub read_clock : Simulation → Float × Simulation
  read_clock s =
      let (at, world) = setup.outside.clock s.net.world in
      (at, record s { net = record s.net { world = world } })

  -- A driver is tracked once the server has given it an id.
  abbrev pub track : Simulation → Point → Option Body × Net → Bool × Simulation
  track s point (none, net) = (false, record s { net = net })
  track s point (some body, net) = elim body.id [
    | none ↦ (false, record s { net = net })
    | some id ↦ (
      true,
      record s { net = net; drivers = s.drivers ++ record { id = id; position = point } ∷ [] },
    )
  ]

  -- The loop of create_drivers; `false` is an exception, which ends it.
  unfoldable pub create_at : List Point → Simulation → Bool × Simulation
  unfolding create_sim_driver
  create_at [] s = (true, s)
  create_at (point ∷ points) s =
      let (made, s') = track s point (create_sim_driver setup.outside point.lat point.lng s.net) in
      let rest = create_at points s' in if made then rest else (false, s')

  unfoldable pub create_drivers : Simulation → Bool × Simulation
  unfolding create_at generate_points
  create_drivers s =
      let (points, rng) =
        generate_points f setup.rng (area_center setup.config) setup.config.area_radius_km
          setup.config.num_drivers s.rng in
      create_at points (record s { rng = rng })

  abbrev pub motion : Motion
  motion = record {
    area_center = area_center setup.config;
    area_radius_km = setup.config.area_radius_km;
    speed_kmh = setup.config.driver_speed_kmh;
    interval_seconds = setup.config.movement_interval_seconds;
  }

  -- The new position counts only if the server has taken it.
  abbrev pub moved_to : TrackedDriver → Point → Option Body → TrackedDriver
  moved_to tracked position none = tracked
  moved_to tracked position (some body) = record tracked { position = position }

  unfoldable pub move_one : TrackedDriver → Simulation → TrackedDriver × Simulation
  unfolding step update_sim_location
  move_one tracked s =
      let (position, rng) = step f setup.rng motion tracked.position s.rng in
      let (body, net) =
        update_sim_location setup.outside tracked.id position.lat position.lng s.net in
      (moved_to tracked position body, record s { rng = rng; net = net })

  unfoldable pub move_each : List TrackedDriver → Simulation → List TrackedDriver × Simulation
  unfolding move_one
  move_each [] s = ([], s)
  move_each (d ∷ ds) s =
      let (d', s') = move_one d s in let (ds', s'') = move_each ds s' in (d' ∷ ds', s'')

  -- _movement_tick; the drivers are mutable objects, so their list is written back.
  unfoldable pub movement_tick : Simulation → Simulation
  unfolding move_each
  movement_tick s = let (drivers, s') = move_each s.drivers s in record s' { drivers = drivers }

  unfoldable pub schedule_lifecycle : ℕ → Simulation → Simulation
  unfolding read_clock
  schedule_lifecycle ride_id s =
      let (delay, rng) =
        setup.rng.uniform setup.config.ride_duration_min_seconds
          setup.config.ride_duration_max_seconds s.rng in
      let (draw, rng') = setup.rng.random rng in
      let (at, s') = read_clock (record s { rng = rng' }) in
      record s' {
        pending_rides =
            s'.pending_rides
            ++ record {
              ride_id = ride_id;
              due_at = f.add at delay;
              cancel = f.lt draw setup.config.cancel_fraction;
            }
              ∷ [];
      }

  abbrev pub is_due : Float → PendingLifecycle → Bool
  is_due at r = float_le f r.due_at at

  abbrev pub is_later : Float → PendingLifecycle → Bool
  is_later at r = f.lt at r.due_at

  -- An exception of the client is logged, and the loop goes on.
  unfoldable pub end_each : List PendingLifecycle → Net → Net
  unfolding cancel_sim_ride complete_sim_ride
  end_each [] net = net
  end_each (r ∷ rs) net = end_each rs (
      if r.cancel
      then (cancel_sim_ride setup.outside r.ride_id net).1
      else (complete_sim_ride setup.outside r.ride_id net).1)

  -- _lifecycle_tick
  unfoldable pub lifecycle_tick : Simulation → Simulation
  unfolding read_clock end_each
  lifecycle_tick s =
      let (at, s') = read_clock s in
      let due = select (is_due at) s'.pending_rides in
      let kept = select (is_later at) s'.pending_rides in
      record s' { pending_rides = kept; net = end_each due s'.net }
