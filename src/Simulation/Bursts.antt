-- ===== src/Simulation/Bursts.antt =====
-- The request-firing part of app/simulation/runner.py: fire_burst and the request loop. The workers of
-- a burst run in the order of the list, one of the orders that the barrier allows. While the loop
-- waits between bursts the other two loops may run any ticks.
use realtime_ride_matching_e.Prelude.{
  ℕ, zero, suc, ◌+◌, ◌-◌, Bool, true, false, ◌&&◌, Option, none, some, List, [], ◌∷◌, if◌then◌else◌,
  ltb, ◌==◌, min,
}
use realtime_ride_matching_e.Floats.{Float, Floats}
use realtime_ride_matching_e.Observability.Metrics.{matched, unmatched, error}
use realtime_ride_matching_e.Simulation.Generators.{Point, Bias, random_point_biased}
use realtime_ride_matching_e.Simulation.Reporting.{RequestOutcome, record_result}
use realtime_ride_matching_e.Simulation.Settings.{
  area_center, resolved_hotspot_center, resolved_hotspot_radius_km,
}
use realtime_ride_matching_e.Simulation.Client.{Body, create_sim_rider, request_sim_ride}
use realtime_ride_matching_e.Simulation.Runner.{
  Simulation, Setup, read_clock, schedule_lifecycle, movement_tick, lifecycle_tick, create_drivers,
}

-- What happens in the other two threads.
pub data Tick : Type 0 where
  movement lifecycle : Tick

abbrev pub next_wait : List (List Tick) → List Tick
next_wait [] = []
next_wait (w ∷ ws) = w

abbrev pub later_waits : List (List Tick) → List (List Tick)
later_waits [] = []
later_waits (w ∷ ws) = ws

-- What the first loop of fire_burst has come to: a reply without an id is a KeyError, which leaves
-- `complete` false.
pub record Riders : Type 0 where
  pub complete : Bool
  pub riders : List (ℕ × Point)

abbrev pub result_of : Option (Bool × Simulation) → Option (Bool × List RequestOutcome)
result_of none = none
result_of (some (fine, s)) = some (fine, s.results)

module _ (setup : Setup) where
  abbrev f : Floats
  f = setup.env.floats

  abbrev pub bias : Bias
  bias = record {
    area_center = area_center setup.config;
    area_radius_km = setup.config.area_radius_km;
    hotspot_center = resolved_hotspot_center setup.config;
    hotspot_radius_km = resolved_hotspot_radius_km setup.env setup.config;
    hotspot_fraction = setup.config.hotspot_fraction;
  }

  abbrev pub with_rider : Option Body → Point → Riders → Riders
  with_rider none point rest = rest
  with_rider (some body) point rest = elim body.id [
    | none ↦ record { complete = false; riders = [] }
    | some id ↦ record rest { riders = (id, point) ∷ rest.riders }
  ]

  abbrev pub is_usable : Option Body → Bool
  is_usable none = true
  is_usable (some body) = elim body.id [ none ↦ false | some id ↦ true ]

  -- The first loop of fire_burst: a slot whose rider is refused is skipped.
  unfoldable pub collect_riders : ℕ → Simulation → Riders × Simulation
  unfolding random_point_biased create_sim_rider
  collect_riders zero s = (record { complete = true; riders = [] }, s)
  collect_riders (suc n) s =
      let (point, rng) = random_point_biased f setup.rng bias s.rng in
      let (body, net) = create_sim_rider setup.outside point.lat point.lng s.net in
      let s' : Simulation = record s { rng = rng; net = net } in
      let (rest, s'') = collect_riders n s' in
      (with_rider body point rest, if is_usable body then s'' else s')

  abbrev pub with_outcome : Simulation → RequestOutcome → Simulation
  with_outcome s o = record s { results = record_result s.results o }

  abbrev pub failed_request : Float → Option ℕ → RequestOutcome
  failed_request latency code = record {
    outcome = error;
    latency_seconds = latency;
    status_code = code;
    ride_id = none;
    driver_id = none;
  }

  -- A reply 201: body.get("driver_id") tells whether the ride was matched. A matched ride without an
  -- id is a KeyError, `false`.
  abbrev pub accepted_ride : Float → (driver_id id : Option ℕ) → Simulation → Bool × Simulation
  accepted_ride latency none ride_id s = (
    true,
    with_outcome s (record {
      outcome = unmatched;
      latency_seconds = latency;
      status_code = some 201;
      ride_id = ride_id;
      driver_id = none;
    }),
  )
  accepted_ride latency (some driver) none s = (false, s)
  accepted_ride latency (some driver) (some ride) s = (
    true,
    schedule_lifecycle setup ride (
        with_outcome s (record {
          outcome = matched;
          latency_seconds = latency;
          status_code = some 201;
          ride_id = some ride;
          driver_id = some driver;
        })),
  )

  abbrev pub reply_outcome : Float → Option (ℕ × Body) → Simulation → Bool × Simulation
  reply_outcome latency none s = (true, with_outcome s (failed_request latency none))
  reply_outcome latency (some (code, body)) s =
      if code == 201
      then accepted_ride latency body.driver_id body.id s
      else (true, with_outcome s (failed_request latency (some code)))

  -- The function that each thread of the burst runs.
  unfoldable pub worker : ℕ → Point → Simulation → Bool × Simulation
  unfolding read_clock request_sim_ride schedule_lifecycle record_result
  worker rider_id point s =
      let (start, s') = read_clock setup s in
      let (reply, net) = request_sim_ride setup.outside rider_id point.lat point.lng s'.net in
      let (stop, s'') = read_clock setup (record s' { net = net }) in
      reply_outcome (f.sub stop start) reply s''

  -- All threads run to their end; an exception of any comes out when the results are read.
  unfoldable pub run_workers : List (ℕ × Point) → Simulation → Bool × Simulation
  unfolding worker
  run_workers [] s = (true, s)
  run_workers ((rider, point) ∷ rest) s =
      let (fine, s') = worker rider point s in
      let (others_fine, s'') = run_workers rest s' in (fine && others_fine, s'')

  unfoldable pub fire_burst : ℕ → Simulation → Bool × Simulation
  unfolding collect_riders run_workers
  fire_burst size s =
      let (made, s') = collect_riders size s in
      if made.complete then run_workers made.riders s' else (false, s')

  unfoldable pub run_ticks : List Tick → Simulation → Simulation
  run_ticks [] s = s
  run_ticks (movement ∷ ts) s = run_ticks ts (movement_tick setup s)
  run_ticks (lifecycle ∷ ts) s = run_ticks ts (lifecycle_tick setup s)

  -- self._riders_fired += burst
  abbrev pub count_burst : Simulation → ℕ → Simulation
  count_burst s burst = record s { riders_fired = s.riders_fired + burst }

  -- The body of the loop after its tests: one burst, the count, and the wait.
  unfoldable pub burst_round : List Tick → ℕ → Simulation → Bool × Simulation
  unfolding fire_burst run_ticks read_clock
  burst_round ticks burst s =
      let (tick_start, s') = read_clock setup s in
      let (fine, s'') = fire_burst burst s' in
      if fine
      then (true, run_ticks ticks (read_clock setup (count_burst s'' burst)).1)
      else (false, s'')

  -- _request_loop, after `end_time` is set, with the ticks of the other threads in each wait. Nothing
  -- sets the stop event before the loop is over. `none`: no fuel.
  unfoldable pub request_loop :
      ℕ → List (List Tick) → Float → Simulation → Option (Bool × Simulation)
  unfolding burst_round
  request_loop zero waits end_time s = none
  request_loop (suc fuel) waits end_time s =
      let (at, s') = read_clock setup s in
      elim (f.lt at end_time && ltb s'.riders_fired setup.config.num_riders) [
        | false ↦ some (true, s')
        | true ↦
            let burst = min setup.config.burst_size (setup.config.num_riders - s'.riders_fired) in
            elim (burst == 0) [
              | true ↦ some (true, s')
              | false ↦
                  let (fine, s'') = burst_round (next_wait waits) burst s' in
                  elim fine [
                    | false ↦ some (false, s'')
                    | true ↦ request_loop fuel (later_waits waits) end_time s''
                  ]
            ]
      ]

  -- run, from the creation of the drivers to the snapshot of the results; `false` is an exception.
  unfoldable pub run_simulation :
      List (List Tick) → Simulation → Option (Bool × List RequestOutcome)
  unfolding create_drivers read_clock request_loop
  run_simulation waits s =
      let (made, s') = create_drivers setup s in
      let (at, s'') = read_clock setup s' in
      let fuel = suc (setup.config.num_riders - s''.riders_fired) in
      if made
      then result_of (request_loop fuel waits (f.add at setup.config.duration_seconds) s'')
      else some (false, s'.results)
