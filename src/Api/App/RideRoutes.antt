-- ===== src/Api/App/RideRoutes.antt =====
-- Which exceptions leave the routes of rides: app/services/ride_service.py and app/api/rides.py.
use realtime_ride_matching_e.Prelude.{
  ℕ, List, true, Option, none, some, String, Bool-cases, inl, inr,
}
use realtime_ride_matching_e.Config.{Env}
use realtime_ride_matching_e.Floats.{Float}
use realtime_ride_matching_e.Models.{Ride, RideStatus, ride_status_eq, requested}
use realtime_ride_matching_e.Observability.Events.{Event}
use realtime_ride_matching_e.Observability.Metrics.{error}
use realtime_ride_matching_e.Program.Commands.{
  Exn, Prog, Result, ok, err, no_available_driver, invalid_ride_state, ride_not_found,
  idempotency_key_conflict, integrity_error, database_error, locking_unavailable,
  redis_connection_error, raise, ret, call, lift, ◌>>◌, add_ride, uuid4, now,
}
use realtime_ride_matching_e.Program.Raises.{
  Raises, gives, throws, Fails, Raises-call, Raises-bind, Raises-ask, Raises-attempt, Raises-weaken,
  raises_rules,
}
use realtime_ride_matching_e.Repositories.Rides
use realtime_ride_matching_e.Matching.Matcher.{match_ride}
use realtime_ride_matching_e.RideService.{
  RideRequest, find_existing, recover, insert_and_commit, create_new, create_ride, free_driver,
  transition_or_raise, end_ride, cancel_ride, complete_ride,
}
use realtime_ride_matching_e.Api.Rides.{record_since, after_match, request_ride}
use realtime_ride_matching_e.Api.App.Kinds.{
  OfRide, OfCreation, OfMatching, OfRequest, AllowsDatabase, lifts, commits, transition-Raises,
  require_row-Raises, get_driver-Raises, get_ride-Raises, zone_surge-Raises,
}
use realtime_ride_matching_e.Api.App.Matching.{match_ride-Raises}

by_key-Raises : {E : Exn → Type 0} (key : String) → Raises E (Rides.get_by_idempotency_key key)
unfolding Rides.get_by_idempotency_key
by_key-Raises key = search raises_rules

creation_db : AllowsDatabase OfCreation
creation_db = (tt, tt)

conflict : {A : Type 0} → Raises OfCreation {A = A} (raise idempotency_key_conflict)
conflict = throws idempotency_key_conflict tt

refused : {A : Type 0} → Raises OfCreation {A = A} (raise integrity_error)
refused = throws integrity_error tt

find_existing-Raises :
    (env : Env) (req : RideRequest) (key : Option String)
    → Raises OfCreation (find_existing env req key)
unfolding find_existing
find_existing-Raises env req none = gives none
find_existing-Raises env req (some key) = search (raises_rules, by_key-Raises, conflict) depth 8

recover-Raises :
    (key : Option String) (r : Result Ride) → Fails OfCreation r → Raises OfCreation (recover key r)
unfolding recover
recover-Raises none (ok ride) h = gives (ride, true)
recover-Raises (some key) (ok ride) h = gives (ride, true)
recover-Raises none (err integrity_error) h = search (raises_rules, refused)
recover-Raises (some key) (err integrity_error) h =
    search (raises_rules, by_key-Raises, refused) depth 8
recover-Raises none (err e) h = throws e h
recover-Raises (some key) (err e) h = throws e h

create-Raises :
    (env : Env) (rider : ℕ) (lat lng : Float) (key : Option String) (z : Option ℕ)
    (surge : Option Float)
    → Raises OfCreation (Rides.create env rider lat lng key z surge)
unfolding Rides.create
create-Raises env rider lat lng key z surge = Raises-bind (call uuid4) _ (Raises-call uuid4) (λ id.
    Raises-bind (call now) _ (Raises-call now) (λ at.
      Raises-ask (add_ride _) _
        (λ r q. Raises-bind (lift r) _ (lifts creation_db r q) (λ u. gives _))))

insert_and_commit-Raises :
    (env : Env) (req : RideRequest) (zone : ℕ) (m : Float)
    → Raises OfCreation (insert_and_commit env req zone m)
unfolding insert_and_commit
insert_and_commit-Raises env req zone m =
    Raises-bind (Rides.create _ _ _ _ _ _ _) _ (create-Raises _ _ _ _ _ _ _)
      (λ ride. commits creation_db (ret ride) (gives ride))

create_new-Raises : (env : Env) (req : RideRequest) → Raises OfCreation (create_new env req)
unfolding create_new
create_new-Raises env req =
    search
      (
        raises_rules,
        zone_surge-Raises,
        require_row-Raises {E = OfCreation} creation_db,
        λ (zone : ℕ) (m : Float).
            Raises-attempt OfCreation (insert_and_commit env req zone m)
              (recover req.idempotency_key) (insert_and_commit-Raises env req zone m)
              (recover-Raises req.idempotency_key),
      )
      depth 12

create_ride-Raises : (env : Env) (req : RideRequest) → Raises OfCreation (create_ride env req)
unfolding create_ride
create_ride-Raises env req = search (raises_rules, find_existing-Raises, create_new-Raises) depth 8

ride_db : AllowsDatabase OfRide
ride_db = (tt, tt)

wrong_state :
    {A : Type 0} (c : Option RideStatus) → Raises OfRide {A = A} (raise (invalid_ride_state c))
wrong_state c = throws (invalid_ride_state c) tt

missing : {A : Type 0} → Raises OfRide {A = A} (raise ride_not_found)
missing = throws ride_not_found tt

ruleset parts = (raises_rules, get_driver-Raises, get_ride-Raises, wrong_state, missing)

transition_or_raise-Raises :
    (id : ℕ) (from : List RideStatus) (to : RideStatus)
    → Raises OfRide (transition_or_raise id from to)
unfolding transition_or_raise
transition_or_raise-Raises id from to =
    search
      (
        parts,
        transition-Raises {E = OfRide} ride_db,
        λ (o : Option Ride). require_row-Raises {E = OfRide} ride_db o,
      )
      depth 12

free_driver-Raises : (d : Option ℕ) → Raises OfRide (free_driver d)
unfolding free_driver
free_driver-Raises none = gives tt
free_driver-Raises (some d) = search parts depth 8

end_ride-Raises :
    (id : ℕ) (from : List RideStatus) (to : RideStatus) (event : Ride → Event)
    → Raises OfRide (end_ride id from to event)
unfolding end_ride
end_ride-Raises id from to event =
    search
      (
        parts,
        transition_or_raise-Raises,
        free_driver-Raises,
        λ (A : Type 0) (rest : Prog A). commits {E = OfRide} ride_db {A = A} rest,
        λ (o : Option Ride). require_row-Raises {E = OfRide} ride_db o,
      )
      depth 12

pub cancel_ride-Raises : (id : ℕ) → Raises OfRide (cancel_ride id)
unfolding cancel_ride
cancel_ride-Raises id = end_ride-Raises id _ _ _

pub complete_ride-Raises : (id : ℕ) → Raises OfRide (complete_ride id)
unfolding complete_ride
complete_ride-Raises id = end_ride-Raises id _ _ _

creation-OfRequest : (e : Exn) → OfCreation e → OfRequest e
creation-OfRequest idempotency_key_conflict h = tt
creation-OfRequest integrity_error h = tt
creation-OfRequest database_error h = tt
creation-OfRequest e h = absurd h

reraised :
    (start : ℕ) (e : Exn)
    → OfRequest e
    → Raises OfRequest {A = Ride} (record_since start error >> raise e)
reraised start e h =
    let last : Raises OfRequest {A = Ride} (raise e) = throws e h in
    search (raises_rules, last) depth 8

after_match-Raises :
    (ride : Ride) (start : ℕ) (r : Result Ride)
    → Fails OfMatching r
    → Raises OfRequest (after_match ride start r)
after_match-Raises ride start (ok a) h = search raises_rules depth 8
after_match-Raises ride start (err no_available_driver) h = search raises_rules depth 8
after_match-Raises ride start (err (invalid_ride_state c)) h =
    reraised start (invalid_ride_state c) tt
after_match-Raises ride start (err locking_unavailable) h = reraised start locking_unavailable tt
after_match-Raises ride start (err redis_connection_error) h =
    reraised start redis_connection_error tt
after_match-Raises ride start (err integrity_error) h = reraised start integrity_error tt
after_match-Raises ride start (err database_error) h = reraised start database_error tt
after_match-Raises ride start (err e) h = absurd h

-- A ride that is not requested any more is not matched again.
pub request_ride-Raises : (env : Env) (req : RideRequest) → Raises OfRequest (request_ride env req)
unfolding request_ride
request_ride-Raises env req =
    Raises-bind (create_ride env _) _
      (Raises-weaken OfCreation (create_ride env _) creation-OfRequest (create_ride-Raises env _))
      (λ ride. elim (Bool-cases (ride_status_eq ride.status requested)) [
        | inl e ↦ rw e (
            Raises-bind (call now) _ (Raises-call now) (λ start.
              Raises-attempt OfMatching (match_ride env ride) (after_match ride start)
                (match_ride-Raises env ride e) (after_match-Raises ride start)))
        | inr e ↦ rw e (gives ride)
      ])
