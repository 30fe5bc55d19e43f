-- ===== src/Simulation/Client.antt =====
-- app/simulation/client.py: SimulationClient, one method for each endpoint. The server and the
-- network are a parameter that answers requests; `none` is an exception of the HTTP client.
use realtime_ride_matching_e.Prelude.{
  ℕ, Bool, ◌&&◌, Option, none, some, List, [], ◌∷◌, ◌++◌, leb, if◌then◌else◌,
}
use realtime_ride_matching_e.Floats.{Float}

pub data Request : Type 0 where
  post_drivers : (lat lng : Float) → Request
  patch_driver_location : (driver_id : ℕ) (lat lng : Float) → Request
  post_riders : (lat lng : Float) → Request
  post_rides : (rider_id : ℕ) (lat lng : Float) → Request
  get_ride_by_id : (ride_id : ℕ) → Request
  post_cancel : (ride_id : ℕ) → Request
  post_complete : (ride_id : ℕ) → Request
  get_stats_page : Request
  get_surge_page : (zone_id : ℕ) → Request

-- What the code reads of a JSON body: its "id" and its "driver_id", where they are there.
pub record Body : Type 0 where
  pub id : Option ℕ
  pub driver_id : Option ℕ

pub record Reply : Type 0 where
  pub status_code : ℕ
  pub is_json : Bool
  pub body : Body

abbrev pub no_body : Body
no_body = record { id = none; driver_id = none }

-- What the simulation runs against: the server's replies, with a number for the state of the world
-- and its clock.
pub record Outside : Type 0 where
  pub send : Request → ℕ → Option Reply × ℕ
  pub clock : ℕ → Float × ℕ

-- The world as a client sees it, with the requests that it has sent, oldest first.
pub record Net : Type 0 where
  pub world : ℕ
  pub sent : List Request

-- A method of the client: its result, or `none` where it raises.
abbrev pub Call : Type 0 → Type 0
Call A = Net → Option A × Net

unfoldable pub transmit : Outside → Request → Call Reply
transmit out request net =
    let (reply, world) = out.send request net.world in
    (reply, record { world = world; sent = net.sent ++ request ∷ [] })

-- resp.raise_for_status(): any status but 2xx raises.
abbrev pub is_success : ℕ → Bool
is_success code = leb 200 code && leb code 299

abbrev pub checked : Option Reply → Option Body
checked none = none
checked (some r) = if is_success r.status_code then some r.body else none

-- A request whose reply must be a success.
unfoldable pub transmit_checked : Outside → Request → Call Body
unfolding transmit
transmit_checked out request net =
    let (reply, net') = transmit out request net in (checked reply, net')

unfoldable pub create_sim_driver : Outside → Float → Float → Call Body
unfolding transmit_checked
create_sim_driver out lat lng = transmit_checked out (post_drivers lat lng)

unfoldable pub update_sim_location : Outside → ℕ → Float → Float → Call Body
unfolding transmit_checked
update_sim_location out driver_id lat lng =
    transmit_checked out (patch_driver_location driver_id lat lng)

unfoldable pub create_sim_rider : Outside → Float → Float → Call Body
unfolding transmit_checked
create_sim_rider out lat lng = transmit_checked out (post_riders lat lng)

abbrev pub status_and_body : Option Reply → Option (ℕ × Body)
status_and_body none = none
status_and_body (some r) = some (r.status_code, if r.is_json then r.body else no_body)

-- Only request_ride does not raise on a status.
unfoldable pub request_sim_ride : Outside → ℕ → Float → Float → Call (ℕ × Body)
unfolding transmit
request_sim_ride out rider_id lat lng net =
    let (reply, net') = transmit out (post_rides rider_id lat lng) net in
    (status_and_body reply, net')

unfoldable pub get_sim_ride : Outside → ℕ → Call Body
unfolding transmit_checked
get_sim_ride out ride_id = transmit_checked out (get_ride_by_id ride_id)

unfoldable pub cancel_sim_ride : Outside → ℕ → Call Body
unfolding transmit_checked
cancel_sim_ride out ride_id = transmit_checked out (post_cancel ride_id)

unfoldable pub complete_sim_ride : Outside → ℕ → Call Body
unfolding transmit_checked
complete_sim_ride out ride_id = transmit_checked out (post_complete ride_id)

unfoldable pub get_sim_stats : Outside → Call Body
unfolding transmit_checked
get_sim_stats out = transmit_checked out get_stats_page

unfoldable pub get_sim_surge : Outside → ℕ → Call Body
unfolding transmit_checked
get_sim_surge out zone_id = transmit_checked out (get_surge_page zone_id)
