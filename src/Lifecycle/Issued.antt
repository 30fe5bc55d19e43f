-- ===== src/Lifecycle/Issued.antt =====
-- Every route of the API issues lawful commands only.
use realtime_ride_matching_e.Prelude.{ℕ, true, Option, none, some, List, String, ◌≡◌, All}
use realtime_ride_matching_e.Config.{Env}
use realtime_ride_matching_e.Models.{
  Ride, RideStatus, requested, completed, cancelled, active_ride_statuses,
}
use realtime_ride_matching_e.Program.Commands.{
  Result, ok, err, call, lift, integrity_error, update_ride, add_ride, no_available_driver,
}
use realtime_ride_matching_e.Program.Issues.{
  Issues, by_ret, by_raise, Issues-call, Issues-bind, Issues-lift, issues_rules,
}
use realtime_ride_matching_e.Lifecycle.{
  IsLawful, MayBecome, AssignsWhen, cancel_requested, cancel_matched, cancel_in_progress,
  complete_matched, complete_in_progress,
}
use realtime_ride_matching_e.Pricing.{clock_or, zone_surge}
use realtime_ride_matching_e.Observability.Events.{Event}
use realtime_ride_matching_e.RideService.{
  RideRequest, find_existing, recover, insert_and_commit, create_new, create_ride, free_driver,
  transition_or_raise, end_ride, cancel_ride, complete_ride, completable_statuses,
}
use realtime_ride_matching_e.Api.Rides.{
  after_match, request_ride, cancel_ride_endpoint, complete_ride_endpoint,
}
use realtime_ride_matching_e.Repositories.Drivers
use realtime_ride_matching_e.Repositories.Rides
use realtime_ride_matching_e.Floats.{Float}
use realtime_ride_matching_e.Lifecycle.MatchIssued.{
  IsLawfulProg, require_row-IsLawful, get_driver-IsLawful, get_ride-IsLawful, match_ride-IsLawful,
}

ruleset parts = (issues_rules, require_row-IsLawful, get_driver-IsLawful, get_ride-IsLawful)

pub clock_or-IsLawful : (pinned : Option ℕ) → IsLawfulProg (clock_or pinned)
clock_or-IsLawful none = search issues_rules
clock_or-IsLawful (some at) = search issues_rules

pub zone_surge-IsLawful :
    (env : Env) (zone : ℕ) (at : Option ℕ) → IsLawfulProg (zone_surge env zone at)
unfolding zone_surge Rides.count_recent_active_in_zone Drivers.count_available_in_zone
zone_surge-IsLawful env zone at = search (issues_rules, clock_or-IsLawful) depth 8

by_key-IsLawful : (key : String) → IsLawfulProg (Rides.get_by_idempotency_key key)
unfolding Rides.get_by_idempotency_key
by_key-IsLawful key = search issues_rules

find_existing-IsLawful :
    (env : Env) (req : RideRequest) (key : Option String) → IsLawfulProg (find_existing env req key)
unfolding find_existing
find_existing-IsLawful env req none = by_ret none
find_existing-IsLawful env req (some key) = search (issues_rules, by_key-IsLawful) depth 8

recover-IsLawful : (key : Option String) (r : Result Ride) → IsLawfulProg (recover key r)
unfolding recover
recover-IsLawful none (ok ride) = by_ret (ride, true)
recover-IsLawful (some key) (ok ride) = by_ret (ride, true)
recover-IsLawful none (err integrity_error) = search issues_rules
recover-IsLawful (some key) (err integrity_error) = search (issues_rules, by_key-IsLawful) depth 8
recover-IsLawful none (err e) = by_raise e
recover-IsLawful (some key) (err e) = by_raise e

create-IsLawful :
    (env : Env) (rider : ℕ) (lat lng : Float) (key : Option String) (z : Option ℕ)
    (surge : Option Float)
    → IsLawfulProg (Rides.create env rider lat lng key z surge)
unfolding Rides.create
create-IsLawful env rider lat lng key z surge =
    search
      (
        issues_rules,
        λ (r : Ride) (p : (r.status ≡ requested) × (r.driver_id ≡ none)).
            Issues-call {Q = IsLawful} (add_ride r) p,
      )
      depth 10

insert_and_commit-IsLawful :
    (env : Env) (req : RideRequest) (zone : ℕ) (m : Float)
    → IsLawfulProg (insert_and_commit env req zone m)
unfolding insert_and_commit
insert_and_commit-IsLawful env req zone m = search (issues_rules, create-IsLawful) depth 8

create_new-IsLawful : (env : Env) (req : RideRequest) → IsLawfulProg (create_new env req)
unfolding create_new
create_new-IsLawful env req =
    search (parts, zone_surge-IsLawful, insert_and_commit-IsLawful, recover-IsLawful) depth 12

create_ride-IsLawful : (env : Env) (req : RideRequest) → IsLawfulProg (create_ride env req)
unfolding create_ride
create_ride-IsLawful env req =
    search (issues_rules, find_existing-IsLawful, create_new-IsLawful) depth 8

free_driver-IsLawful : (d : Option ℕ) → IsLawfulProg (free_driver d)
unfolding free_driver
free_driver-IsLawful none = by_ret tt
free_driver-IsLawful (some d) = search parts depth 8

module _ (from : List RideStatus) (to : RideStatus) (lawful : All (λ s. MayBecome s to) from)
    (ends : AssignsWhen to none) where
  transition-IsLawful : (id : ℕ) → IsLawfulProg (Rides.transition_status id from to none)
  unfolding Rides.transition_status
  transition-IsLawful id =
      Issues-bind (call (update_ride id from to none)) lift
        (Issues-call (update_ride id from to none) (lawful, ends)) Issues-lift

  transition_or_raise-IsLawful : (id : ℕ) → IsLawfulProg (transition_or_raise id from to)
  unfolding transition_or_raise
  transition_or_raise-IsLawful id = search (parts, transition-IsLawful) depth 12

  end_ride-IsLawful : (id : ℕ) (event : Ride → Event) → IsLawfulProg (end_ride id from to event)
  unfolding end_ride
  end_ride-IsLawful id event =
      search (parts, transition_or_raise-IsLawful, free_driver-IsLawful) depth 12

-- Cancelling asks for moves of active rides to `cancelled` only.
pub cancel_ride-IsLawful : (id : ℕ) → IsLawfulProg (cancel_ride id)
unfolding cancel_ride
cancel_ride-IsLawful id =
    end_ride-IsLawful active_ride_statuses cancelled
      (cancel_requested, (cancel_matched, (cancel_in_progress, tt))) tt id _

pub complete_ride-IsLawful : (id : ℕ) → IsLawfulProg (complete_ride id)
unfolding complete_ride
complete_ride-IsLawful id =
    end_ride-IsLawful completable_statuses completed (complete_matched, (complete_in_progress, tt))
      tt id _

after_match-IsLawful :
    (ride : Ride) (start : ℕ) (r : Result Ride) → IsLawfulProg (after_match ride start r)
after_match-IsLawful ride start (ok a) = search issues_rules depth 8
after_match-IsLawful ride start (err no_available_driver) = search issues_rules depth 8
after_match-IsLawful ride start (err e) = search issues_rules depth 8

pub request_ride-IsLawful : (env : Env) (req : RideRequest) → IsLawfulProg (request_ride env req)
unfolding request_ride
request_ride-IsLawful env req =
    search (issues_rules, create_ride-IsLawful, match_ride-IsLawful, after_match-IsLawful) depth 12

-- Every route that writes rides, whatever it is called with and whatever it is answered, asks only
-- for moves along the life cycle, assigns a driver only with the move to `matched`, and inserts
-- rides as requested and without a driver.
pub routes_issue-IsLawful :
    (env : Env) (req : RideRequest) (id : ℕ)
    → Issues IsLawful (request_ride env req)
      × Issues IsLawful (cancel_ride_endpoint id)
      × Issues IsLawful (complete_ride_endpoint id)
unfolding cancel_ride_endpoint complete_ride_endpoint
routes_issue-IsLawful env req id =
    (request_ride-IsLawful env req, cancel_ride-IsLawful id, complete_ride-IsLawful id)
