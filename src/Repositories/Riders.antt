-- ===== src/Repositories/Riders.antt =====
-- app/storage/repositories/rider_repository.py
use realtime_ride_matching_e.Prelude.{ℕ, Option}
use realtime_ride_matching_e.Floats.{Float}
use realtime_ride_matching_e.Models.{Rider}
use realtime_ride_matching_e.Program.Commands.{
  Prog, ret, call, ◌>>=◌, ◌>>◌, add_rider, refresh_rider, uuid4, now,
}

unfoldable pub create : Float → Float → Prog Rider
create lat lng = do
  id ← call uuid4
  at ← call now
  let rider : Rider = record { id = id; pickup_lat = lat; pickup_lng = lng; requested_at = at }
  call (add_rider rider)
  ret rider

-- A rider's row never changes, so that a loaded object and its row are the same.
unfoldable pub get_by_id : ℕ → Prog (Option Rider)
get_by_id rider_id = call (refresh_rider rider_id)
