-- ===== src/Api/App/Kinds.antt =====
-- The exceptions of each group of routes, and of the database calls that they share.
use realtime_ride_matching_e.Prelude.{ℕ, Bool, Option, none, some, List}
use realtime_ride_matching_e.Config.{Env}
use realtime_ride_matching_e.Models.{RideStatus}
use realtime_ride_matching_e.Storage.Tables.{Assignment}
use realtime_ride_matching_e.Program.Commands.{
  Exn, no_available_driver, invalid_ride_state, ride_not_found, driver_not_found,
  idempotency_key_conflict, locking_unavailable, redis_connection_error, integrity_error,
  database_error, Result, ok, err, Prog, call, lift, ◌>>=◌, ◌>>◌, commit, update_ride,
}
use realtime_ride_matching_e.Program.Raises.{
  Raises, gives, throws, Fails, IsDatabaseError, Raises-bind, Raises-ask, raises_rules,
}
use realtime_ride_matching_e.Repositories.Drivers
use realtime_ride_matching_e.Repositories.Rides
use realtime_ride_matching_e.Matching.Matcher.{require_row}
use realtime_ride_matching_e.Pricing.{clock_or, zone_surge}

-- Of the routes that name a driver.
abbrev pub OfDriver : Exn → Type 0
OfDriver driver_not_found = Unit
OfDriver integrity_error = Unit
OfDriver database_error = Unit
OfDriver _ = ⊥

-- Of the look-up of a ride.
abbrev pub OfLookup : Exn → Type 0
OfLookup ride_not_found = Unit
OfLookup integrity_error = Unit
OfLookup database_error = Unit
OfLookup _ = ⊥

-- Of the routes that end a ride.
abbrev pub OfRide : Exn → Type 0
OfRide ride_not_found = Unit
OfRide (invalid_ride_state current) = Unit
OfRide integrity_error = Unit
OfRide database_error = Unit
OfRide _ = ⊥

-- Of create_ride.
abbrev pub OfCreation : Exn → Type 0
OfCreation idempotency_key_conflict = Unit
OfCreation integrity_error = Unit
OfCreation database_error = Unit
OfCreation _ = ⊥

-- Of match_ride on a ride that is requested.
abbrev pub OfMatching : Exn → Type 0
OfMatching no_available_driver = Unit
OfMatching (invalid_ride_state current) = Unit
OfMatching locking_unavailable = Unit
OfMatching redis_connection_error = Unit
OfMatching integrity_error = Unit
OfMatching database_error = Unit
OfMatching _ = ⊥

-- Of POST /rides.
abbrev pub OfRequest : Exn → Type 0
OfRequest idempotency_key_conflict = Unit
OfRequest (invalid_ride_state current) = Unit
OfRequest locking_unavailable = Unit
OfRequest redis_connection_error = Unit
OfRequest integrity_error = Unit
OfRequest database_error = Unit
OfRequest _ = ⊥

-- Calls of the database, where its failures are allowed.
abbrev pub AllowsDatabase : (Exn → Type 0) → Type 0
AllowsDatabase E = E integrity_error × E database_error

module _ {E : Exn → Type 0} (db : AllowsDatabase E) where
  pub lifts : {A : Type 0} (r : Result A) → Fails IsDatabaseError r → Raises E (lift r)
  lifts (ok a) h = gives a
  lifts (err integrity_error) h = throws integrity_error db.0
  lifts (err database_error) h = throws database_error db.1
  lifts (err e) h = absurd h

  -- db.commit(), and what follows it
  pub commits :
      {A : Type 0} (rest : Prog A)
      → Raises E rest
      → Raises E (call commit >>= λ committed. lift committed >> rest)
  commits rest h =
      Raises-ask commit (λ committed. lift committed >> rest)
        (λ r q. Raises-bind (lift r) (λ _. rest) (lifts r q) (λ _. h))

  pub transition-Raises :
      (id : ℕ) (from : List RideStatus) (to : RideStatus) (extra : Option Assignment)
      → Raises E (Rides.transition_status id from to extra)
  unfolding Rides.transition_status
  transition-Raises id from to extra = Raises-ask (update_ride id from to extra) lift lifts

  pub require_row-Raises : {A : Type 0} (o : Option A) → Raises E (require_row o)
  require_row-Raises none = throws database_error db.1
  require_row-Raises (some a) = gives a

module _ {E : Exn → Type 0} where
  pub get_driver-Raises : (id : ℕ) (fresh : Bool) → Raises E (Drivers.get_by_id id fresh)
  unfolding Drivers.get_by_id
  get_driver-Raises id fresh = search raises_rules

  pub get_ride-Raises : (id : ℕ) → Raises E (Rides.get_by_id id)
  unfolding Rides.get_by_id
  get_ride-Raises id = search raises_rules

  pub clock_or-Raises : (pinned : Option ℕ) → Raises E (clock_or pinned)
  clock_or-Raises none = search raises_rules
  clock_or-Raises (some at) = search raises_rules

  pub zone_surge-Raises : (env : Env) (zone : ℕ) (at : Option ℕ) → Raises E (zone_surge env zone at)
  unfolding zone_surge Rides.count_recent_active_in_zone Drivers.count_available_in_zone
  zone_surge-Raises env zone at = search (raises_rules, clock_or-Raises) depth 8
