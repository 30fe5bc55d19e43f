-- ===== src/Lifecycle.antt =====
-- The life of a ride: which status may follow which, and that no code path asks for another move.
pub mod MatchIssued
pub mod Issued
pub mod Statuses
use realtime_ride_matching_e.Prelude.{◌≡◌, Bool, true, false, Option, none, some, All, List}
use realtime_ride_matching_e.Models.{
  RideStatus, requested, matched, in_progress, completed, cancelled, Ride,
}
use realtime_ride_matching_e.Storage.Tables.{Assignment}
use realtime_ride_matching_e.Program.Commands.{Cmd, add_ride, update_ride, get_ride}

-- One move of a ride that is not over yet.
pub data MayBecome : RideStatus → RideStatus → Type 0 where
  match_requested : MayBecome requested matched
  cancel_requested : MayBecome requested cancelled
  cancel_matched : MayBecome matched cancelled
  cancel_in_progress : MayBecome in_progress cancelled
  complete_matched : MayBecome matched completed
  complete_in_progress : MayBecome in_progress completed

-- A driver is assigned with the move to `matched`, and with no other.
abbrev pub AssignsWhen : RideStatus → Option Assignment → Type 0
AssignsWhen matched (some a) = Unit
AssignsWhen matched none = ⊥
AssignsWhen _ none = Unit
AssignsWhen _ (some a) = ⊥

-- A conditional UPDATE moves rides along the life cycle; a new ride starts at its beginning.
abbrev pub IsLawful : Cmd → Type 0
IsLawful (update_ride id from to extra) = All (λ s. MayBecome s to) from × AssignsWhen to extra
IsLawful (add_ride r) = (r.status ≡ requested) × (r.driver_id ≡ none)
IsLawful _ = Unit
