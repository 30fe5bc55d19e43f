-- ===== src/RideService/Inserting.antt =====
-- The quote and the insert of app/services/ride_service.py: create_ride's own transaction.
use realtime_ride_matching_e.Prelude.{
  ℕ, ◌≤◌, ◌≡◌, refl, true, false, none, some, inl, inr, Bool-cases, select, length, leb, ◌&&◌, ◌==◌,
}
use realtime_ride_matching_e.Floats.{Float}
use realtime_ride_matching_e.Config.{Env}
use realtime_ride_matching_e.Models.{Ride, requested, is_active, available, driver_status_eq}
use realtime_ride_matching_e.Storage.Constraints.{accepts_insert}
use realtime_ride_matching_e.Storage.Tables.{Tables, apply, insert_ride}
use realtime_ride_matching_e.Program.State.{Shared, World}
use realtime_ride_matching_e.Program.Commands.{
  Result, ok, err, integrity_error, database_error, ret, call, lift, ◌>>=◌, commit, add_ride,
}
use realtime_ride_matching_e.Program.Exec.{Platform, exec, run}
use realtime_ride_matching_e.Program.Effects.{at_clock, called, committed_world}
use realtime_ride_matching_e.Program.Laws.{run_laws}
use realtime_ride_matching_e.Program.Cases.{started, inserting, Committed, failed, done}
use realtime_ride_matching_e.Program.Answers.{
  now-later, uuid4_any, count_rides_lem, count_drivers_lem, add_ride_accepted, add_ride_refused,
  commit-Committed,
}
use realtime_ride_matching_e.Repositories.Drivers
use realtime_ride_matching_e.Repositories.Rides
use realtime_ride_matching_e.Repositories.Rides.{in_zone}
use realtime_ride_matching_e.Matching.Geo.{zone_id_for_point}
use realtime_ride_matching_e.Pricing.{SurgeResult, zone_surge, window_start, surge_multiplier}
use realtime_ride_matching_e.RideService.{RideRequest, insert_and_commit}

-- The quote for a zone, from the rows of `t` at a time.
abbrev pub quoted : Env → Tables → ℕ → ℕ → SurgeResult
quoted env t zone at =
    let demand = length (
      select
        (λ r.
          in_zone zone r.zone_id && leb (window_start env at) r.created_at && is_active r.status)
        t.rides) in
    let supply =
      length (select (λ d. driver_status_eq d.status available && d.zone_id == zone) t.drivers) in
    record {
      zone_id = zone;
      demand = demand;
      supply = supply;
      multiplier = surge_multiplier env demand supply;
    }

pub zone_surge-run :
    ⦃p : Platform⦄ (env : Env) (zone : ℕ) (s : Shared)
    → (at : ℕ) × (s.clock ≤ at)
      × (run (zone_surge env zone none) (started s)
          ≡ (ok (quoted env s.db zone at), at_clock (started s) at))
unfolding zone_surge Rides.count_recent_active_in_zone Drivers.count_available_in_zone run
    surge_multiplier ◌>>=◌
zone_surge-run env zone s =
    let (at, later, e) = now-later (started s) in
    (at, later, simp (e, count_rides_lem, count_drivers_lem) refl)

abbrev pub zone_of : Env → RideRequest → ℕ
zone_of env req =
    zone_id_for_point env req.pickup_lat req.pickup_lng env.settings.surge_zone_resolution

-- The row of a request.
abbrev pub new_ride : RideRequest → (id at zone : ℕ) → Float → Ride
new_ride req id at zone multiplier = record {
  id = id;
  rider_id = req.rider_id;
  driver_id = none;
  status = requested;
  pickup_lat = req.pickup_lat;
  pickup_lng = req.pickup_lng;
  matched_at = none;
  fare = none;
  surge_multiplier = some multiplier;
  zone_id = some zone;
  idempotency_key = req.idempotency_key;
  created_at = at;
  updated_at = at;
}

-- The transaction of the insert, from `t`.
pub data Inserted (req : RideRequest) (t : Tables) (zone : ℕ) (multiplier : Float)
    : Result Ride × World → Type 0 where
  stored :
      (id at : ℕ) (s : Shared)
      → accepts_insert t (new_ride req id at zone multiplier) ≡ true
      → s.db ≡ apply t (insert_ride (new_ride req id at zone multiplier))
      → Inserted req t zone multiplier (ok (new_ride req id at zone multiplier), started s)
  turned_down :
      (id at : ℕ) (s : Shared)
      → accepts_insert t (new_ride req id at zone multiplier) ≡ false
      → s.db ≡ t
      → Inserted req t zone multiplier (err integrity_error, started s)
  lost : (s : Shared) → s.db ≡ t → Inserted req t zone multiplier (err database_error, started s)

module _ ⦃p : Platform⦄ (req : RideRequest) (zone : ℕ) (multiplier : Float) where
  commit-Inserted :
      (id at : ℕ) (s : Shared) (a : Result (Unit {0}) × World)
      → accepts_insert s.db (new_ride req id at zone multiplier) ≡ true
      → Committed (inserting s (new_ride req id at zone multiplier)) a
      → Inserted req s.db zone multiplier
          (run (lift a.0 >>= λ _. ret (new_ride req id at zone multiplier)) a.1)
  unfolding run ◌>>=◌
  commit-Inserted id at s a e failed = lost (called s) refl
  commit-Inserted id at s a e done =
      stored id at (committed_world (inserting s (new_ride req id at zone multiplier))).shared e
        refl

  flush-Inserted :
      (id at : ℕ) (s : Shared)
      → Inserted req s.db zone multiplier (
          run
            (call (add_ride (new_ride req id at zone multiplier)) >>= λ flushed.
              lift flushed >>= λ _. ret (new_ride req id at zone multiplier) >>= λ ride.
              call commit >>= λ committed. lift committed >>= λ _. ret ride)
            (started s))
  flush-Inserted id at s =
      let r = new_ride req id at zone multiplier in
      elim (Bool-cases (accepts_insert s.db r)) [
        | inl e ↦
            simp (run_laws, add_ride_accepted s r e)
              (commit-Inserted id at s (exec commit (inserting s r)) e
                (commit-Committed (inserting s r)))
        | inr e ↦ simp (run_laws, add_ride_refused s r e) (turned_down id at s e refl)
      ]

pub insert_and_commit-Inserted :
    ⦃p : Platform⦄ (env : Env) (req : RideRequest) (zone : ℕ) (multiplier : Float) (s : Shared)
    → Inserted req s.db zone
        (env.numeric_4_2 multiplier)
        (run (insert_and_commit env req zone multiplier) (started s))
unfolding insert_and_commit Rides.create
insert_and_commit-Inserted env req zone multiplier s =
    let (id, e) = uuid4_any (started s) in
    let (at, later, e') = now-later (record (started s) { shared = called s }) in
    simp (run_laws, e, e')
      (flush-Inserted req zone (env.numeric_4_2 multiplier) id at
        (record (called (called s)) { clock = at }))
