-- ===== src/Tests/Interleavings.antt =====
-- Two workers in the small city: one cancels the ride, and the other dies on the way.
use realtime_ride_matching_e.Prelude.{
  zero, suc, ap, true, sym, ◌∙◌, ℕ, arith, ◌≡◌, refl, ◌==◌, false, none, some, [],
}
use realtime_ride_matching_e.Models.{Ride, active_ride_statuses, cancelled}
use realtime_ride_matching_e.Storage.Tables.{find_ride, with_ride_status}
use realtime_ride_matching_e.Storage.Constraints.{both_active, clashes, violates_unique}
use realtime_ride_matching_e.Storage.Uniqueness.{Unique}
use realtime_ride_matching_e.Program.Commands.{get_ride, refresh_ride, update_ride, commit, ◌>>=◌}
use realtime_ride_matching_e.RideService.{
  cancel_ride, complete_ride, end_ride, transition_or_raise, free_driver,
}
use realtime_ride_matching_e.Repositories.Rides
use realtime_ride_matching_e.Api.Rides as RideRoutes
use realtime_ride_matching_e.Program.Effects.{effect, load_ride, update_checked}
use realtime_ride_matching_e.Workers.{
  System, Step, Reach, writes_of, touches, Unlocked, Undisputed, here, next, takes, calls, stops,
  cancels_ride, completes_ride,
}
use realtime_ride_matching_e.Workers.Running.{
  started_system, started_system-IsRunning, Reach-IsRunning, Step-RowStep,
}
use realtime_ride_matching_e.Workers.Versions.{RowStep}
use realtime_ride_matching_e.Workers.Refinement.{versions}
use realtime_ride_matching_e.Workers.Steps.{IsRunning}
use realtime_ride_matching_e.Workers.History.{Lasts}
use realtime_ride_matching_e.Workers.Promises.{one_active_ride, committed_ride-Lasts}
use realtime_ride_matching_e.Tests.Reference.{reliable}
use realtime_ride_matching_e.Tests.Samples.{city, clash_world, matched_ride, waiting_ride}

clash_rows-Unique : Unique clash_world.shared.db.rides
unfolding both_active
clash_rows-Unique = ((record { ids = refl; keys = refl; drivers = refl }, tt), (tt, tt))

-- Nothing has to wait for workers that have written nothing.
alone :
    (s : System) (i id : ℕ) (new : Ride)
    → ((j : ℕ) → (j == i) ≡ false → writes_of s j ≡ [])
    → Unlocked s i id × Undisputed s i new
alone s i id new none_written = (
  λ j n. ap (touches id) (none_written j n),
  λ j k q n t f. absurd (clash (sym t ∙ ap (touches k) (none_written j n))),
)
  where
    clash : true ≡ false → ⊥
    clash e = cc

abbrev city_start : System
city_start = started_system clash_world.shared

-- Both requests are for the waiting ride, and both workers read it.
abbrev both_read : (s : System) × Reach city city_start s
unfolding RideRoutes.cancel_ride_endpoint RideRoutes.complete_ride_endpoint cancel_ride
    complete_ride end_ride transition_or_raise Rides.get_by_id ◌>>=◌
both_read = (
  _,
  next
      (next (next (next here (takes _ 1 _ (cancels_ride 10))) (takes _ 2 _ (completes_ride 10)))
        (calls _ 1 (get_ride 10) _ refl tt))
      (calls _ 2 (get_ride 10) _ refl tt),
)

alone_there : (j : ℕ) → (j == 1) ≡ false → writes_of both_read.0 j ≡ []
unfolding both_read effect load_ride
alone_there zero n = refl
alone_there (suc zero) n = cc
alone_there (suc (suc zero)) n = refl
alone_there (suc (suc (suc j))) n = ground arith

-- The conditional UPDATE of worker 1.
abbrev cancelled_by : (s : System) × Step city both_read.0 s
unfolding both_read Rides.transition_status effect load_ride
cancelled_by = (
  _,
  calls _ 1 (update_ride 10 active_ride_statuses cancelled none) _ refl (λ r found st.
      alone both_read.0 1 10 (with_ride_status cancelled none both_read.0.shared.clock r)
        alone_there),
)

-- Worker 1 cancels the ride and commits, and worker 2 dies on the way.
abbrev race : (s : System) × Reach city city_start s
unfolding both_read cancelled_by Rides.transition_status free_driver effect load_ride update_checked
    violates_unique clashes both_active
race = (
  _,
  next
      (next (next (next both_read.1 cancelled_by.1) (stops _ 2))
        (calls _ 1 (refresh_ride 10) _ refl tt))
      (calls _ 1 commit _ refl tt),
)

one_active_ride_example : ◌≡◌ {A = ℕ} 11 11
unfolding race
one_active_ride_example =
    one_active_ride city clash_world.shared clash_rows-Unique race.0 race.1 11 11 2 matched_ride
      matched_ride refl refl refl refl refl refl

committed_ride-Lasts_example :
    (r' : Ride) × (find_ride race.0.shared.db 10 ≡ some r') × Lasts waiting_ride r'
committed_ride-Lasts_example =
    committed_ride-Lasts city clash_world.shared clash_rows-Unique city_start race.0 here race.1 10
      waiting_ride refl

Step-RowStep_example :
    RowStep (versions both_read.0) (versions cancelled_by.0) × IsRunning cancelled_by.0
Step-RowStep_example = Step-RowStep city cancelled_by.1 (
    Reach-IsRunning city both_read.1
      (started_system-IsRunning clash_world.shared clash_rows-Unique))
