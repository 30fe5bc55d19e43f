-- ===== src/Repositories/Drivers.antt =====
-- app/storage/repositories/driver_repository.py
use realtime_ride_matching_e.Prelude.{
  case_option, ℕ, Bool, true, false, ◌&&◌, Option, none, List, [], ◌∷◌, ◌==◌, contains,
}
use realtime_ride_matching_e.Floats.{Float}
use realtime_ride_matching_e.Models.{Driver, DriverStatus, available, driver_status_eq}
use realtime_ride_matching_e.Program.Commands.{
  Prog, ret, call, ◌>>=◌, ◌>>◌, query_drivers, count_drivers, add_driver, assign_driver_location,
  assign_driver_status, flush, uuid4, now,
}
use realtime_ride_matching_e.Program.Commands

-- The id is the column's default, uuid4(), and last_updated_at the server's now().
unfoldable pub create : Float → Float → ℕ → ℕ → DriverStatus → Prog Driver
create lat lng h3_index zone_id status = do
  id ← call uuid4
  at ← call now
  let driver : Driver = record {
    id = id;
    current_lat = lat;
    current_lng = lng;
    h3_index = h3_index;
    zone_id = zone_id;
    status = status;
    last_updated_at = at;
  }
  call (add_driver driver)
  ret driver

unfoldable pub get_by_id : ℕ → Bool → Prog (Option Driver)
get_by_id id fresh = call (Commands.get_driver id fresh)

unfoldable pub list_by_status : DriverStatus → Prog (List Driver)
list_by_status status = call (query_drivers (λ d. driver_status_eq d.status status))

unfoldable pub list_all : Prog (List Driver)
list_all = call (query_drivers (λ d. true))

-- Driver.status == AVAILABLE and Driver.h3_index IN cells
abbrev pub available_in : List ℕ → Driver → Bool
available_in cells d = driver_status_eq d.status available && contains d.h3_index cells

unfoldable pub list_available_in_cells : List ℕ → Prog (List Driver)
list_available_in_cells [] = ret []
list_available_in_cells (c ∷ cells) = call (query_drivers (available_in (c ∷ cells)))

unfoldable pub update_location : ℕ → Float → Float → ℕ → ℕ → Prog (Option Driver)
update_location id lat lng h3_index zone_id = do
  found ← get_by_id id false
  case_option found (ret none) (λ driver. do
    call (assign_driver_location id lat lng h3_index zone_id)
    call flush
    get_by_id id false)

unfoldable pub count_available_in_zone : ℕ → Prog ℕ
count_available_in_zone zone_id =
    call (count_drivers (λ d. driver_status_eq d.status available && d.zone_id == zone_id))

unfoldable pub update_status : ℕ → DriverStatus → Prog (Option Driver)
update_status id status = do
  found ← get_by_id id false
  case_option found (ret none)
      (λ driver. do call (assign_driver_status id status); call flush; get_by_id id false)

unfoldable pub count_by_status : DriverStatus → Prog ℕ
count_by_status status = call (count_drivers (λ d. driver_status_eq d.status status))
