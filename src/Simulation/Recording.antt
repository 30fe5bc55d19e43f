-- ===== src/Simulation/Recording.antt =====
-- What a burst of requests records.
use realtime_ride_matching_e.Prelude.{
  ℕ, zero, suc, ◌≤◌, map, select, ◌≡◌, refl, sym, ◌∙◌, ap, Bool, true, false, ◌&&◌, Option, none,
  some, List, [], ◌∷◌, ◌++◌, append_assoc, append_nil, arith, length, if◌then◌else◌, ◌==◌,
  Bool-cases, Option-cases, inl, inr,
}
use mathlib.Core.List.{map-append}
use realtime_ride_matching_e.Floats.{Float}
use realtime_ride_matching_e.Observability.Metrics.{Outcome, matched}
use realtime_ride_matching_e.Simulation.Generators.{Point, random_point_biased}
use realtime_ride_matching_e.Simulation.Reporting.{RequestOutcome, has_outcome, record_result}
use realtime_ride_matching_e.Simulation.Client.{Net, Body, request_sim_ride, create_sim_rider}
use realtime_ride_matching_e.Simulation.Runner.{
  PendingLifecycle, Simulation, Setup, read_clock, schedule_lifecycle,
}
use realtime_ride_matching_e.Simulation.Bursts.{
  bias, is_usable, Riders, with_rider, collect_riders, accepted_ride, reply_outcome, worker,
  run_workers, fire_burst,
}

abbrev pub scheduled_ride : PendingLifecycle → Option ℕ
scheduled_ride q = some q.ride_id

abbrev pub requested_ride : RequestOutcome → Option ℕ
requested_ride o = o.ride_id

-- The outcomes that a run has added, and the pending rides: those of before, and then the ride of
-- each matched outcome, in their order; the drivers and the count of riders are as before.
pub record Adds (s s' : Simulation) (new : List RequestOutcome) : Type 0 where
  pub added : List PendingLifecycle
  pub results : s'.results ≡ s.results ++ new
  pub pending : s'.pending_rides ≡ s.pending_rides ++ added
  pub scheduled : map scheduled_ride added ≡ map requested_ride (select (has_outcome matched) new)
  pub drivers : s'.drivers ≡ s.drivers
  pub fired : s'.riders_fired ≡ s.riders_fired

select-append :
    (o : Outcome) (xs ys : List RequestOutcome)
    → select (has_outcome o) (xs ++ ys) ≡ select (has_outcome o) xs ++ select (has_outcome o) ys
select-append o [] ys = refl
select-append o (x ∷ xs) ys = ground (arith, select-append o xs ys)

-- Nothing is scheduled.
abbrev IsQuiet : Simulation → Simulation → List RequestOutcome → Type 0
IsQuiet s s' new =
    (s'.results ≡ s.results ++ new)
    × (s'.pending_rides ≡ s.pending_rides)
    × (select (has_outcome matched) new ≡ [])
    × (s'.drivers ≡ s.drivers)
    × (s'.riders_fired ≡ s.riders_fired)

IsQuiet-Adds : (s s' : Simulation) (new : List RequestOutcome) → IsQuiet s s' new → Adds s s' new
IsQuiet-Adds s s' new (results, pending, none_matched, drivers, fired) = record {
  added = [];
  results = results;
  pending = pending ∙ sym (append_nil s.pending_rides);
  scheduled = ap (map requested_ride) (sym none_matched);
  drivers = drivers;
  fired = fired;
}

module _ (setup : Setup) where
  -- A reply 201 to a request for a ride.
  accepted_ride-Adds :
      (latency : Float) (driver id : Option ℕ) (s : Simulation)
      → (accepted_ride setup latency driver id s).0 ≡ true
      → (o : RequestOutcome) × Adds s (accepted_ride setup latency driver id s).1 (o ∷ [])
  unfolding record_result schedule_lifecycle read_clock
  accepted_ride-Adds latency none id s fine = (_, IsQuiet-Adds _ _ _ (refl, refl, refl, refl, refl))
  accepted_ride-Adds latency (some d) none s fine = absurd (no fine)
    where
      no : false ≡ true → ⊥
      no e = cc
  accepted_ride-Adds latency (some d) (some r) s fine = (
    _,
    record {
      added = _;
      results = refl;
      pending = refl;
      scheduled = refl;
      drivers = refl;
      fired = refl;
    },
  )

  reply_outcome-Adds :
      (latency : Float) (reply : Option (ℕ × Body)) (s : Simulation)
      → (reply_outcome setup latency reply s).0 ≡ true
      → (o : RequestOutcome) × Adds s (reply_outcome setup latency reply s).1 (o ∷ [])
  unfolding record_result
  reply_outcome-Adds latency none s fine = (_, IsQuiet-Adds _ _ _ (refl, refl, refl, refl, refl))
  reply_outcome-Adds latency (some (code, body)) s fine = elim (Bool-cases (code == 201)) [
    | inl e ↦ rw e (accepted_ride-Adds latency body.driver_id body.id s (rw e at fine))
    | inr e ↦ rw e (_, IsQuiet-Adds _ _ _ (refl, refl, refl, refl, refl))
  ]

  worker-Adds :
      (rider : ℕ) (point : Point) (s : Simulation)
      → (worker setup rider point s).0 ≡ true
      → (o : RequestOutcome) × Adds s (worker setup rider point s).1 (o ∷ [])
  unfolding worker read_clock
  worker-Adds rider point s fine =
      let (start, s') = read_clock setup s in
      let (reply, net) = request_sim_ride setup.outside rider point.lat point.lng s'.net in
      let (stop, s'') = read_clock setup (record s' { net = net }) in
      let (o, a) = reply_outcome-Adds (setup.env.floats.sub stop start) reply s'' fine in
      (
        o,
        record {
          added = a.added;
          results = a.results;
          pending = a.pending;
          scheduled = a.scheduled;
          drivers = a.drivers;
          fired = a.fired;
        },
      )

  Adds-append :
      {s t u : Simulation} (xs ys : List RequestOutcome)
      → Adds s t xs
      → Adds t u ys
      → Adds s u (xs ++ ys)
  Adds-append {s} {t} {u} xs ys a b = record {
    added = a.added ++ b.added;
    results = b.results ∙ ap (λ l. l ++ ys) a.results ∙ append_assoc s.results xs ys;
    pending =
        b.pending ∙ ap (λ l. l ++ b.added) a.pending ∙ append_assoc s.pending_rides a.added b.added;
    scheduled =
        map-append scheduled_ride a.added b.added
        ∙ ap (λ l. l ++ map scheduled_ride b.added) a.scheduled
        ∙ ap (λ l. map requested_ride (select (has_outcome matched) xs) ++ l) b.scheduled
        ∙ sym (
            map-append requested_ride (select (has_outcome matched) xs)
              (select (has_outcome matched) ys))
        ∙ ap (map requested_ride) (sym (select-append matched xs ys));
    drivers = b.drivers ∙ a.drivers;
    fired = b.fired ∙ a.fired;
  }

  both_true : (a b : Bool) → (a && b) ≡ true → (a ≡ true) × (b ≡ true)
  both_true a b h = ground (arith, h)

  run_workers-Adds :
      (riders : List (ℕ × Point)) (s : Simulation)
      → (run_workers setup riders s).0 ≡ true
      → (new : List RequestOutcome) × Adds s (run_workers setup riders s).1 new
        × (length new ≡ length riders)
  unfolding run_workers
  run_workers-Adds [] s fine =
      ([], IsQuiet-Adds s s [] (sym (append_nil s.results), refl, refl, refl, refl), refl)
  run_workers-Adds ((rider, point) ∷ rest) s fine =
      let (first, others) = both_true _ _ fine in
      let (o, a) = worker-Adds rider point s first in
      let (new, b, n) = run_workers-Adds rest (worker setup rider point s).1 others in
      (o ∷ new, Adds-append (o ∷ []) new a b, ap suc n)

  Adds-none : (s : Simulation) (net : Net) (rng : ℕ) → Adds s (record s { net = net; rng = rng }) []
  Adds-none s net rng =
      IsQuiet-Adds s (record s { net = net; rng = rng }) []
        (sym (append_nil s.results), refl, refl, refl, refl)

  -- The riders of a burst are at most as many as its slots.
  pub collect-Adds :
      (n : ℕ) (s : Simulation)
      → Adds s (collect_riders setup n s).1 [] × (length (collect_riders setup n s).0.riders ≤ n)
  unfolding collect_riders
  collect-Adds zero s = (Adds-none s s.net s.rng, omega arith)
  collect-Adds (suc n) s =
      let (point, rng) = random_point_biased setup.env.floats setup.rng (bias setup) s.rng in
      let (body, net) = create_sim_rider setup.outside point.lat point.lng s.net in
      let s' : Simulation = record s { rng = rng; net = net } in
      let (a, k) = collect-Adds n s' in
      let here : Adds s s' [] = Adds-none s net rng in
      (
        collected body (Adds-append [] [] here a) here,
        rider_le body point (collect_riders setup n s').0 n k,
      )
    where
      collected :
          {s t u : Simulation} (body : Option Body)
          → Adds s u []
          → Adds s t []
          → Adds s (if is_usable setup body then u else t) []
      collected none a b = a
      collected (some body) a b = elim (Option-cases body.id) [
        | inl e ↦ rw e b
        | inr (id, e) ↦ rw e a
      ]

      rider_le :
          (body : Option Body) (point : Point) (rest : Riders) (n : ℕ)
          → length rest.riders ≤ n
          → length (with_rider setup body point rest).riders ≤ suc n
      rider_le none point rest n k = omega arith
      rider_le (some body) point rest n k = elim (Option-cases body.id) [
        | inl e ↦ rw e (omega arith)
        | inr (id, e) ↦ rw e (omega arith)
      ]

  -- A burst that raises nothing records one outcome for each rider of it.
  pub fire_burst-Adds :
      (n : ℕ) (s : Simulation)
      → (fire_burst setup n s).0 ≡ true
      → (new : List RequestOutcome) × Adds s (fire_burst setup n s).1 new
        × (length new ≡ length (collect_riders setup n s).0.riders)
        × (length new ≤ n)
  unfolding fire_burst
  fire_burst-Adds n s fine =
      let (a, k) = collect-Adds n s in
      elim (Bool-cases (collect_riders setup n s).0.complete) [
        | inl e ↦
            let (new, b, m) =
              run_workers-Adds (collect_riders setup n s).0.riders (collect_riders setup n s).1
                (rw e at fine) in
            rw e (new, Adds-append [] new a b, m, omega arith)
        | inr e ↦ absurd (no (rw e at fine))
      ]
    where
      no : false ≡ true → ⊥
      no e = cc
