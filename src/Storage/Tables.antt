-- ===== src/Storage/Tables.antt =====
-- The three tables, the row writes that the program's statements make, and their replay.
-- A query returns rows in table order.
use realtime_ride_matching_e.Prelude.{ℕ, Option, some, List, ◌∷◌, ◌++◌, [], find_by, modify_by}
use realtime_ride_matching_e.Floats.{Float}
use realtime_ride_matching_e.Models.{Driver, DriverStatus, Rider, Ride, RideStatus}

pub record Tables : Type 0 where
  pub drivers : List Driver
  pub riders : List Rider
  pub rides : List Ride

-- The columns that `transition_status` sets beside `status`.
pub record Assignment : Type 0 where
  pub driver_id : ℕ
  pub matched_at : ℕ

pub data Write : Type 0 where
  insert_driver : Driver → Write
  insert_rider : Rider → Write
  insert_ride : Ride → Write
  -- UPDATE drivers SET status = ?, last_updated_at = now() WHERE id = ?
  set_driver_status : ℕ → DriverStatus → ℕ → Write
  -- UPDATE drivers SET current_lat, current_lng, h3_index, zone_id, last_updated_at WHERE id = ?
  set_driver_location : ℕ → Float → Float → ℕ → ℕ → ℕ → Write
  -- UPDATE rides SET status = ?, updated_at = now() [, driver_id = ?, matched_at = ?] WHERE id = ?
  set_ride_status : ℕ → RideStatus → Option Assignment → ℕ → Write

abbrev pub driver_id_of : Driver → ℕ
driver_id_of d = d.id

abbrev pub rider_id_of : Rider → ℕ
rider_id_of r = r.id

abbrev pub ride_id_of : Ride → ℕ
ride_id_of r = r.id

abbrev pub with_driver_status : DriverStatus → ℕ → Driver → Driver
with_driver_status st at d = record d { status = st; last_updated_at = at }

abbrev pub with_location : Float → Float → ℕ → ℕ → ℕ → Driver → Driver
with_location lat lng cell zone at d = record d {
  current_lat = lat;
  current_lng = lng;
  h3_index = cell;
  zone_id = zone;
  last_updated_at = at;
}

abbrev pub with_ride_status : RideStatus → Option Assignment → ℕ → Ride → Ride
with_ride_status st Option.none at r = record r { status = st; updated_at = at }
with_ride_status st (some a) at r = record r {
  status = st;
  updated_at = at;
  driver_id = some a.driver_id;
  matched_at = some a.matched_at;
}

abbrev pub apply : Tables → Write → Tables
apply t (insert_driver d) = record t { drivers = t.drivers ++ d ∷ [] }
apply t (insert_rider r) = record t { riders = t.riders ++ r ∷ [] }
apply t (insert_ride r) = record t { rides = t.rides ++ r ∷ [] }
apply t (set_driver_status id st at) = record t {
  drivers = modify_by driver_id_of id (with_driver_status st at) t.drivers;
}
apply t (set_driver_location id lat lng cell zone at) = record t {
  drivers = modify_by driver_id_of id (with_location lat lng cell zone at) t.drivers;
}
apply t (set_ride_status id st a at) = record t {
  rides = modify_by ride_id_of id (with_ride_status st a at) t.rides;
}

abbrev pub replay : List Write → Tables → Tables
replay [] t = t
replay (x ∷ ws) t = replay ws (apply t x)

abbrev pub find_driver : Tables → ℕ → Option Driver
find_driver t id = find_by driver_id_of id t.drivers

abbrev pub find_ride : Tables → ℕ → Option Ride
find_ride t id = find_by ride_id_of id t.rides
