-- ===== src/Api/Drivers.antt =====
-- app/api/drivers.py and app/api/riders.py
use realtime_ride_matching_e.Prelude.{case_option, ℕ, false, true, Option, none, some, List}
use realtime_ride_matching_e.Floats.{Float}
use realtime_ride_matching_e.Config.{Env}
use realtime_ride_matching_e.Models.{Driver, DriverStatus, available, Rider}
use realtime_ride_matching_e.Program.Commands.{
  driver_not_found, database_error, Prog, ret, raise, call, lift, ◌>>=◌, ◌>>◌, commit,
  refresh_rider,
}
use realtime_ride_matching_e.Repositories.Drivers
use realtime_ride_matching_e.Repositories.Riders
use realtime_ride_matching_e.Matching.Geo.{latlng_to_h3, zone_id_for_point}

unfoldable pub list_drivers : Option DriverStatus → Prog (List Driver)
list_drivers none = Drivers.list_all
list_drivers (some status) = Drivers.list_by_status status

abbrev pub or_not_found : Option Driver → Prog Driver
or_not_found none = raise driver_not_found
or_not_found (some d) = ret d

-- db.commit(); db.refresh(driver)
unfoldable pub commit_and_refresh : ℕ → Prog Driver
commit_and_refresh id = do
  committed ← call commit
  lift committed
  row ← Drivers.get_by_id id true
  case_option row (raise database_error) ret

unfoldable pub create_driver : Env → Float → Float → Prog Driver
create_driver env lat lng = do
  let h3_index = latlng_to_h3 env lat lng env.settings.h3_resolution
  let zone_id = zone_id_for_point env lat lng env.settings.surge_zone_resolution
  driver ← Drivers.create lat lng h3_index zone_id available
  commit_and_refresh driver.id

unfoldable pub get_driver : ℕ → Prog Driver
get_driver driver_id = do found ← Drivers.get_by_id driver_id false; or_not_found found

unfoldable pub update_driver_location : Env → ℕ → Float → Float → Prog Driver
update_driver_location env driver_id lat lng = do
  let h3_index = latlng_to_h3 env lat lng env.settings.h3_resolution
  let zone_id = zone_id_for_point env lat lng env.settings.surge_zone_resolution
  found ← Drivers.update_location driver_id lat lng h3_index zone_id
  driver ← or_not_found found
  commit_and_refresh driver.id

-- api/riders.py
unfoldable pub create_rider : Float → Float → Prog Rider
create_rider lat lng = do
  rider ← Riders.create lat lng
  committed ← call commit
  lift committed
  row ← call (refresh_rider rider.id)
  case_option row (raise database_error) ret
