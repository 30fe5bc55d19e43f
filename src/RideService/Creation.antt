-- ===== src/RideService/Creation.antt =====
-- create_ride of app/services/ride_service.py when nothing is known under the request's key.
use realtime_ride_matching_e.Prelude.{
  case_option, ℕ, ◌≡◌, refl, ap, ◌∙◌, Bool, true, false, not, Option, none, some, List, [], ◌∷◌,
  ◌++◌, arith, String, if◌then◌else◌, find_by, select,
}
use realtime_ride_matching_e.Floats.{Float}
use realtime_ride_matching_e.Config.{Env}
use realtime_ride_matching_e.Models.{Ride}
use realtime_ride_matching_e.Storage.Constraints.{accepts_insert, id_taken}
use realtime_ride_matching_e.Storage.Tables.{Tables, ride_id_of, apply, insert_ride, find_ride}
use realtime_ride_matching_e.Observability.Events.{ride_requested}
use realtime_ride_matching_e.Program.State.{Shared, World}
use realtime_ride_matching_e.Program.Commands.{
  Result, ok, err, integrity_error, database_error, Prog, ret, call, ◌>>=◌, ◌>>◌, get_ride, emit,
}
use realtime_ride_matching_e.Program.Exec.{Platform, run}
use realtime_ride_matching_e.Program.Effects.{at_clock}
use realtime_ride_matching_e.Program.Kept.{accepts_id}
use realtime_ride_matching_e.Program.Laws.{run_laws, run-bind, run-attempt, then_run}
use realtime_ride_matching_e.Program.Cases.{started}
use realtime_ride_matching_e.Program.Answers.{
  get_ride_found, rollback_lem, emit_lem, query_rides_fresh,
}
use realtime_ride_matching_e.Repositories.Rides
use realtime_ride_matching_e.Repositories.Rides.{in_zone}
use realtime_ride_matching_e.Matching.Matcher.{require_row}
use realtime_ride_matching_e.RideService.{
  RideRequest, find_existing, recover, create_new, create_ride,
}
use realtime_ride_matching_e.RideService.Idempotency.{with_key}
use realtime_ride_matching_e.RideService.Inserting.{
  quoted, zone_surge-run, zone_of, new_ride, Inserted, stored, turned_down, lost,
  insert_and_commit-Inserted,
}

-- One commit stored the row of the request, priced by what was there before it, and nothing else.
pub record NewRide (env : Env) (req : RideRequest) (t : Tables) (r : Ride) (t' : Tables)
    : Type 0 where
  pub id : ℕ
  pub priced_at : ℕ
  pub created_at : ℕ
  pub row :
      r
      ≡ new_ride req id created_at
          (zone_of env req)
          (env.numeric_4_2 (quoted env t (zone_of env req) priced_at).multiplier)
  pub accepted : accepts_insert t r ≡ true
  pub tables : t' ≡ apply t (insert_ride r)

pub data Created (env : Env) (req : RideRequest) (t : Tables) : Result Ride × World → Type 0 where
  created : {w : World} (r : Ride) → NewRide env req t r w.shared.db → Created env req t (ok r, w)
  refused_row :
      {w : World} (r : Ride)
      → r.rider_id ≡ req.rider_id
      → accepts_insert t r ≡ false
      → w.shared.db ≡ t
      → Created env req t (err integrity_error, w)
  failed_commit : {w : World} → w.shared.db ≡ t → Created env req t (err database_error, w)

-- No ride has the key.
abbrev pub IsUnused : Option String → Tables → Type 0
IsUnused none t = Unit
IsUnused (some key) t = select (with_key key) t.rides ≡ []

find_by-append_new :
    (r : Ride) (rs : List Ride)
    → id_taken rs r ≡ false
    → find_by ride_id_of r.id (rs ++ r ∷ []) ≡ some r
unfolding id_taken
find_by-append_new r [] e = ground arith
find_by-append_new r (x ∷ rs) e = ground (arith, find_by-append_new r rs)

-- What follows the outcome of the insert.
abbrev announce : RideRequest → ℕ → Float → Ride × Bool → Prog Ride
announce req zone multiplier outcome = if not outcome.1 then ret outcome.0 else (do
  row ← call (get_ride outcome.0.id)
  ride ← require_row row
  call (emit (ride_requested ride.id req.rider_id zone multiplier req.pickup_lat req.pickup_lng))
  ret ride)

module _ ⦃p : Platform⦄ (env : Env) (req : RideRequest) (t : Tables) (priced_at : ℕ) where
  abbrev zone : ℕ
  zone = zone_of env req

  abbrev price : Float
  price = (quoted env t (zone_of env req) priced_at).multiplier

  abbrev stored_price : Float
  stored_price = env.numeric_4_2 price

  stored-Created :
      (id at : ℕ) (s : Shared)
      → accepts_insert t (new_ride req id at zone stored_price) ≡ true
      → s.db ≡ apply t (insert_ride (new_ride req id at zone stored_price))
      → Created env req t
          (run (announce req zone price (new_ride req id at zone stored_price, true)) (started s))
  stored-Created id at s e same =
      let r = new_ride req id at zone stored_price in
      let found : find_ride s.db id ≡ some r =
        ap (λ (u : Tables). find_ride u id) same
        ∙ find_by-append_new r t.rides (accepts_id t r e) in
      simp (run_laws, get_ride_found (started s) id r refl found, emit_lem)
        (created r (record {
          id = id;
          priced_at = priced_at;
          created_at = at;
          row = refl;
          accepted = e;
          tables = same;
        }))

  recover-Created :
      (key : Option String) (a : Result Ride × World)
      → IsUnused key t
      → Inserted req t zone stored_price a
      → Created env req t (then_run (run (recover key a.0) a.1) (announce req zone price))
  unfolding recover Rides.get_by_idempotency_key run ◌>>=◌
  recover-Created none a unused (stored id at s e same) = stored-Created id at s e same
  recover-Created (some key) a unused (stored id at s e same) = stored-Created id at s e same
  recover-Created none a unused (turned_down id at s e same) =
      rw (rollback_lem (started s), run)
        (refused_row (new_ride req id at zone stored_price) refl e same)
  recover-Created (some key) a unused (turned_down id at s e same) =
      rw (rollback_lem (started s), run)
        (rw
          (
            query_rides_fresh (with_key key) s []
                (ap (λ (u : Tables). select (with_key key) u.rides) same ∙ unused),
            run,
          )
          (refused_row (new_ride req id at zone stored_price) refl e same))
  recover-Created none a unused (lost s same) = failed_commit same
  recover-Created (some key) a unused (lost s same) = failed_commit same

create_new-Created :
    ⦃p : Platform⦄ (env : Env) (req : RideRequest) (s : Shared)
    → IsUnused req.idempotency_key s.db
    → Created env req s.db (run (create_new env req) (started s))
unfolding create_new
create_new-Created env req s unused =
    let zone = zone_of env req in
    let (at, later, e) = zone_surge-run env zone s in
    let price = (quoted env s.db zone at).multiplier in
    let w = at_clock (started s) at in
    simp (run-bind, e, run-attempt)
      (recover-Created env req s.db at req.idempotency_key _ unused
        (insert_and_commit-Inserted env req zone price w.shared))

-- The look-up of an unused key finds nothing.
find_existing-Created :
    ⦃p : Platform⦄ (env : Env) (req : RideRequest) (key : Option String) (s : Shared)
    → IsUnused key s.db
    → Created env req s.db (run (create_new env req) (started s))
    → Created env req s.db (
        run
          (find_existing env req key >>= λ existing. case_option existing (create_new env req) ret)
          (started s))
unfolding find_existing Rides.get_by_idempotency_key run ◌>>=◌
find_existing-Created env req none s unused new = new
find_existing-Created env req (some key) s unused new =
    rw (query_rides_fresh (with_key key) s [] unused, run) new

-- A new session's request under no key, or under one that no ride has: the ride that is returned was
-- stored by one commit, which changes nothing else; it is requested, without a driver, carries the
-- request's data, and, as its column of two decimals rounds it, the price that the formula gives for
-- the demand and the supply of its zone before it. If a constraint refuses the row or the commit fails, the exception says so and nothing is stored.
pub create_ride-Created :
    ⦃p : Platform⦄ (env : Env) (req : RideRequest) (s : Shared)
    → IsUnused req.idempotency_key s.db
    → Created env req s.db (run (create_ride env req) (started s))
unfolding create_ride
create_ride-Created env req s unused =
    find_existing-Created env req req.idempotency_key s unused (create_new-Created env req s unused)
