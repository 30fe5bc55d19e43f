-- ===== src/Models.antt =====
-- app/models: the rows of the three tables, and the enumerations of their status columns.
-- A UUID is its 128-bit number; a timestamp is a number of milliseconds.
use realtime_ride_matching_e.Prelude.{ℕ, Bool, true, false, Option, List, [], ◌∷◌, String, any}
use realtime_ride_matching_e.Floats.{Float}

pub data DriverStatus : Type 0 where
  available busy offline : DriverStatus

pub record Driver : Type 0 where
  pub id : ℕ
  pub current_lat : Float
  pub current_lng : Float
  pub h3_index : ℕ
  pub zone_id : ℕ
  pub status : DriverStatus
  pub last_updated_at : ℕ

pub record Rider : Type 0 where
  pub id : ℕ
  pub pickup_lat : Float
  pub pickup_lng : Float
  pub requested_at : ℕ

pub data RideStatus : Type 0 where
  requested matched in_progress completed cancelled : RideStatus

pub record Ride : Type 0 where
  pub id : ℕ
  pub rider_id : ℕ
  pub driver_id : Option ℕ
  pub status : RideStatus
  pub pickup_lat : Float
  pub pickup_lng : Float
  pub matched_at : Option ℕ
  pub fare : Option ℕ
  pub surge_multiplier : Option Float
  pub zone_id : Option ℕ
  pub idempotency_key : Option String
  pub created_at : ℕ
  pub updated_at : ℕ

abbrev pub driver_status_eq : DriverStatus → DriverStatus → Bool
driver_status_eq available available = true
driver_status_eq busy busy = true
driver_status_eq offline offline = true
driver_status_eq _ _ = false

abbrev pub ride_status_eq : RideStatus → RideStatus → Bool
ride_status_eq requested requested = true
ride_status_eq matched matched = true
ride_status_eq in_progress in_progress = true
ride_status_eq completed completed = true
ride_status_eq cancelled cancelled = true
ride_status_eq _ _ = false

-- status IN (...)
abbrev pub status_in : RideStatus → List RideStatus → Bool
status_in s = any (ride_status_eq s)

-- ACTIVE_RIDE_STATUSES
abbrev pub active_ride_statuses : List RideStatus
active_ride_statuses = requested ∷ matched ∷ in_progress ∷ []

abbrev pub is_active : RideStatus → Bool
is_active s = status_in s active_ride_statuses
