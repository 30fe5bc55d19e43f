-- ===== src/RideService/Idempotency.antt =====
-- create_ride of app/services/ride_service.py under an idempotency key that has been used.
use realtime_ride_matching_e.Prelude.{
  ◌≡◌, refl, Bool, some, List, ◌∷◌, inl, inr, String, Bool-cases, if◌then◌else◌, select,
}
use realtime_ride_matching_e.Config.{Env}
use realtime_ride_matching_e.Models.{Ride}
use realtime_ride_matching_e.Storage.Constraints.{same_key}
use realtime_ride_matching_e.Program.State.{Shared}
use realtime_ride_matching_e.Program.Commands.{ok, err, idempotency_key_conflict, ◌>>=◌}
use realtime_ride_matching_e.Program.Exec.{Platform, run}
use realtime_ride_matching_e.Program.Cases.{started}
use realtime_ride_matching_e.Program.Answers.{query_rides_fresh}
use realtime_ride_matching_e.Repositories.Rides
use realtime_ride_matching_e.RideService.{RideRequest, matches, find_existing, create_ride}

-- The rides under a key.
abbrev pub with_key : String → Ride → Bool
with_key key r = same_key r.idempotency_key (some key)

-- A new session's request under a used key returns the ride of the key as it is now, if the request is
-- for the same ride, and is refused as a conflict otherwise. Either way nothing that sessions share has
-- changed.
pub create_ride_replays :
    ⦃p : Platform⦄ (env : Env) (req : RideRequest) (key : String) (s : Shared) (r : Ride)
    (others : List Ride)
    → req.idempotency_key ≡ some key
    → select (with_key key) s.db.rides ≡ r ∷ others
    → ((run (create_ride env req) (started s)).0
        ≡ (if matches env r req then ok r else err idempotency_key_conflict))
      × ((run (create_ride env req) (started s)).1.shared ≡ s)
unfolding create_ride find_existing Rides.get_by_idempotency_key run ◌>>=◌ matches
create_ride_replays env req key s r others keyed used = rw keyed (
    rw (query_rides_fresh (with_key key) s (r ∷ others) used, run)
      (elim (Bool-cases (matches env r req)) [
        | inl same ↦ rw same (refl, refl)
        | inr other ↦ rw other (refl, refl)
      ]))
