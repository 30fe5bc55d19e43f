-- ===== src/Simulation/Loop.antt =====
-- The request loop ends, and fires no more riders than it was asked for.
use realtime_ride_matching_e.Prelude.{
  ℕ, zero, suc, ◌+◌, ◌-◌, ◌≤◌, ◌<◌, ◌≡◌, refl, ◌∙◌, ap, Bool, true, false, ◌&&◌, Option, none, some,
  List, [], ◌∷◌, arith, length, length-append, ◌==◌, ltb, min, Bool-cases, inl, inr,
}
use realtime_ride_matching_e.Floats.{Float}
use realtime_ride_matching_e.Simulation.Generators.{Point}
use realtime_ride_matching_e.Simulation.Client.{Body, request_sim_ride}
use realtime_ride_matching_e.Simulation.Runner.{
  schedule_lifecycle, Simulation, Setup, read_clock, movement_tick, lifecycle_tick, TrackedDriver,
  move_each, move_one,
}
use realtime_ride_matching_e.Simulation.Bursts.{
  accepted_ride, reply_outcome, worker, run_workers, collect_riders, Tick, movement, lifecycle,
  fire_burst, run_ticks, burst_round, request_loop, next_wait, later_waits, count_burst,
}
use realtime_ride_matching_e.Simulation.Recording.{collect-Adds, fire_burst-Adds}

-- What the other threads leave alone.
pub record SameCounts (s s' : Simulation) : Type 0 where
  pub results : s'.results ≡ s.results
  pub fired : s'.riders_fired ≡ s.riders_fired

pub SameCounts-trans : {s t u : Simulation} → SameCounts s t → SameCounts t u → SameCounts s u
SameCounts-trans a b = record { results = b.results ∙ a.results; fired = b.fired ∙ a.fired }

module _ (setup : Setup) where
  pub read_clock-SameCounts : (s : Simulation) → SameCounts s (read_clock setup s).1
  unfolding read_clock
  read_clock-SameCounts s = record { results = refl; fired = refl }

  move_each-SameCounts :
      (ds : List TrackedDriver) (s : Simulation) → SameCounts s (move_each setup ds s).1
  unfolding move_each move_one
  move_each-SameCounts [] s = record { results = refl; fired = refl }
  move_each-SameCounts (d ∷ ds) s =
      let rest = move_each-SameCounts ds (move_one setup d s).1 in
      record { results = rest.results; fired = rest.fired }

  tick-SameCounts :
      (s : Simulation)
      → SameCounts s (movement_tick setup s) × SameCounts s (lifecycle_tick setup s)
  unfolding movement_tick lifecycle_tick read_clock
  tick-SameCounts s =
      let moved = move_each-SameCounts s.drivers s in
      (
        record { results = moved.results; fired = moved.fired },
        record { results = refl; fired = refl },
      )

  run_ticks-SameCounts : (ts : List Tick) (s : Simulation) → SameCounts s (run_ticks setup ts s)
  unfolding run_ticks
  run_ticks-SameCounts [] s = record { results = refl; fired = refl }
  run_ticks-SameCounts (movement ∷ ts) s =
      SameCounts-trans (tick-SameCounts s).0 (run_ticks-SameCounts ts (movement_tick setup s))
  run_ticks-SameCounts (lifecycle ∷ ts) s =
      SameCounts-trans (tick-SameCounts s).1 (run_ticks-SameCounts ts (lifecycle_tick setup s))

  -- A round that raises nothing counts its burst, and records no more than that.
  round_counts :
      (ticks : List Tick) (burst : ℕ) (s : Simulation)
      → (burst_round setup ticks burst s).0 ≡ true
      → ((burst_round setup ticks burst s).1.riders_fired ≡ s.riders_fired + burst)
        × (length (burst_round setup ticks burst s).1.results ≤ length s.results + burst)
  unfolding burst_round
  round_counts ticks burst s fine =
      elim (Bool-cases (fire_burst setup burst (read_clock setup s).1).0) [
        | inr e ↦ absurd (no (rw e at fine))
        | inl e ↦
            let before = read_clock-SameCounts s in
            let (new, a, m, k) = fire_burst-Adds setup burst (read_clock setup s).1 e in
            let s'' = (fire_burst setup burst (read_clock setup s).1).1 in
            let clock = read_clock-SameCounts (count_burst setup s'' burst) in
            let after =
              run_ticks-SameCounts ticks (read_clock setup (count_burst setup s'' burst)).1 in
            rw e (
              omega (arith, before.fired, a.fired, clock.fired, after.fired),
              omega (
                arith,
                ap length before.results,
                ap length a.results,
                ap length clock.results,
                ap length after.results,
                length-append {0} (read_clock setup s).1.results new,
              ),
            )
      ]
    where
      no : false ≡ true → ⊥
      no e = cc

  -- However a burst ends, it does not touch the count.
  accepted_ride-fired :
      (latency : Float) (driver id : Option ℕ) (s : Simulation)
      → (accepted_ride setup latency driver id s).1.riders_fired ≡ s.riders_fired
  unfolding schedule_lifecycle read_clock
  accepted_ride-fired latency none id s = refl
  accepted_ride-fired latency (some d) none s = refl
  accepted_ride-fired latency (some d) (some r) s = refl

  reply_outcome-fired :
      (latency : Float) (reply : Option (ℕ × Body)) (s : Simulation)
      → (reply_outcome setup latency reply s).1.riders_fired ≡ s.riders_fired
  reply_outcome-fired latency none s = refl
  reply_outcome-fired latency (some (code, body)) s = elim (Bool-cases (code == 201)) [
    | inl e ↦ rw e (accepted_ride-fired latency body.driver_id body.id s)
    | inr e ↦ rw e refl
  ]

  run_workers-fired :
      (riders : List (ℕ × Point)) (s : Simulation)
      → (run_workers setup riders s).1.riders_fired ≡ s.riders_fired
  unfolding run_workers worker read_clock
  run_workers-fired [] s = refl
  run_workers-fired ((rider, point) ∷ rest) s =
      let (start, s') = read_clock setup s in
      let (reply, net) = request_sim_ride setup.outside rider point.lat point.lng s'.net in
      let (stop, s'') = read_clock setup (record s' { net = net }) in
      run_workers-fired rest (worker setup rider point s).1
      ∙ reply_outcome-fired (setup.env.floats.sub stop start) reply s''

  fire_burst-fired :
      (n : ℕ) (s : Simulation) → (fire_burst setup n s).1.riders_fired ≡ s.riders_fired
  unfolding fire_burst
  fire_burst-fired n s = elim (Bool-cases (collect_riders setup n s).0.complete) [
    | inl e ↦ rw e (
        run_workers-fired (collect_riders setup n s).0.riders (collect_riders setup n s).1
        ∙ (collect-Adds setup n s).0.fired)
    | inr e ↦ rw e ((collect-Adds setup n s).0.fired)
  ]

  round_fails :
      (ticks : List Tick) (burst : ℕ) (s : Simulation)
      → (burst_round setup ticks burst s).0 ≡ false
      → (burst_round setup ticks burst s).1.riders_fired ≡ s.riders_fired
  unfolding burst_round
  round_fails ticks burst s bad =
      elim (Bool-cases (fire_burst setup burst (read_clock setup s).1).0) [
        | inl e ↦ absurd (no (rw e at bad))
        | inr e ↦
            rw e (fire_burst-fired burst (read_clock setup s).1 ∙ (read_clock-SameCounts s).fired)
      ]
    where
      no : true ≡ false → ⊥
      no e = cc

  abbrev limit : ℕ
  limit = setup.config.num_riders

  -- The outcome of the loop.
  pub record Ends (s : Simulation) (r : Bool × Simulation) : Type 0 where
    pub within : s.riders_fired ≤ limit → r.1.riders_fired ≤ limit
    pub recorded :
        r.0 ≡ true → length r.1.results + s.riders_fired ≤ length s.results + r.1.riders_fired

  -- With more fuel than riders are left to fire the loop ends; it has fired no more riders than
  -- `num_riders`, and if nothing was raised it has recorded at most one outcome for each of them.
  pub request_loop-Ends :
      (fuel : ℕ) (waits : List (List Tick)) (end_time : Float) (s : Simulation)
      → limit - s.riders_fired < fuel
      → (r : Bool × Simulation) × (request_loop setup fuel waits end_time s ≡ some r) × Ends s r
  unfolding request_loop
  request_loop-Ends zero waits end_time s enough = absurd (omega arith)
  request_loop-Ends (suc fuel) waits end_time s enough =
      let (at, s') = read_clock setup s in
      let same = read_clock-SameCounts s in
      let still : Ends s (true, s') = record {
        within = λ h. omega (arith, same.fired);
        recorded = λ _. omega (arith, same.fired, ap length same.results);
      } in
      elim (Bool-cases (setup.env.floats.lt at end_time && ltb s'.riders_fired limit)) [
        | inr done ↦ ((true, s'), rw (done, request_loop) refl, still)
        | inl more ↦
            let burst = min setup.config.burst_size (limit - s'.riders_fired) in
            elim (Bool-cases (burst == 0)) [
              | inl none_left ↦ ((true, s'), rw (more, request_loop) (rw none_left refl), still)
              | inr some_left ↦
                  let s'' = burst_round setup (next_wait waits) burst s' in
                  elim (Bool-cases s''.0) [
                    | inr bad ↦ (
                      (false, s''.1),
                      rw (more, request_loop) (rw some_left (rw bad refl)),
                      record {
                        within = λ h.
                            omega (arith, same.fired, round_fails (next_wait waits) burst s' bad);
                        recorded = λ e. cc;
                      },
                    )
                    | inl fine ↦
                        let pos : 0 < burst = ground (arith, some_left) in
                        let under : burst ≤ limit - s'.riders_fired = omega arith in
                        let (count, size) = round_counts (next_wait waits) burst s' fine in
                        let (r, e, ends) =
                          request_loop-Ends fuel (later_waits waits) end_time s''.1
                            (omega (arith, same.fired, count, pos, under)) in
                        (
                          r,
                          rw (more, request_loop) (rw some_left (rw fine e)),
                          record {
                            within = λ h. ends.within (omega (arith, same.fired, count, under));
                            recorded = λ g. omega (
                              arith,
                              same.fired,
                              ap length same.results,
                              count,
                              size,
                              ends.recorded g,
                            );
                          },
                        )
                  ]
            ]
      ]
