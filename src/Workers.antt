-- ===== src/Workers.antt =====
-- Several workers of the server on one database, one Redis and one clock: each runs the program of
-- one request in its own session, their calls are interleaved in any order, and any of them may die.
-- A statement that PostgreSQL would keep waiting for the transaction of another worker is not run
-- before that one ends.
pub mod Versions
pub mod Consistency
pub mod History
pub mod Tracing
pub mod Rows
pub mod Changes
pub mod Refinement
pub mod Turns
pub mod Calls
pub mod Requests
pub mod Steps
pub mod Running
pub mod Promises
use realtime_ride_matching_e.Prelude.{
  ℕ, ◌≡◌, Bool, true, false, ◌||◌, some, List, [], ◌∷◌, ◌==◌, if◌then◌else◌, Option,
}
use realtime_ride_matching_e.Config.{Env}
use realtime_ride_matching_e.Floats.{Float}
use realtime_ride_matching_e.Models.{Ride, DriverStatus, status_in}
use realtime_ride_matching_e.Storage.Tables.{
  Write, insert_ride, set_ride_status, find_ride, with_ride_status,
}
use realtime_ride_matching_e.Storage.Constraints.{clashes}
use realtime_ride_matching_e.Program.State.{Shared, Session, World, fresh_session, view}
use realtime_ride_matching_e.Program.Commands.{
  Cmd, Resp, add_ride, update_ride, Prog, ret, op, ◌>>=◌, ◌>>◌,
}
use realtime_ride_matching_e.Program.Exec.{Platform, exec}
use realtime_ride_matching_e.Observability.Metrics.{MetricsSnapshot}
use realtime_ride_matching_e.RideService.{RideRequest}
use realtime_ride_matching_e.Api.Rides.{request_ride, cancel_ride_endpoint, complete_ride_endpoint}
use realtime_ride_matching_e.Api.Rides
use realtime_ride_matching_e.Api.Drivers
use realtime_ride_matching_e.Api.Stats

pub record Worker : Type 0 where
  pub session : Session
  -- what is left to run of its request
  pub program : Prog (Unit {0})

pub record System : Type 0 where
  pub shared : Shared
  pub workers : ℕ → Worker

-- What the commands of one worker act on.
abbrev pub world_of : System → ℕ → World
world_of s i = record { shared = s.shared; session = (s.workers i).session }

abbrev pub writes_of : System → ℕ → List Write
writes_of s i = (s.workers i).session.writes

abbrev pub set_worker : (ℕ → Worker) → ℕ → Worker → ℕ → Worker
set_worker ws i w j = if j == i then w else ws j

abbrev pub idle : Worker
idle = record { session = fresh_session; program = ret tt }

-- The statements of an open transaction that have written the row under `id`.
abbrev pub touches : ℕ → List Write → Bool
touches id [] = false
touches id (insert_ride r ∷ ws) = r.id == id || touches id ws
touches id (set_ride_status k st a at ∷ ws) = k == id || touches id ws
touches id (_ ∷ ws) = touches id ws

-- No other open transaction holds the lock of the row.
abbrev pub Unlocked : System → ℕ → ℕ → Type 0
Unlocked s i id = (j : ℕ) → (j == i) ≡ false → touches id (writes_of s j) ≡ false

-- No uncommitted version of another transaction stands against the new one in a unique index.
abbrev pub Undisputed : System → ℕ → Ride → Type 0
Undisputed s i new =
    (j id : ℕ) (r : Ride)
    → (j == i) ≡ false
    → touches id (writes_of s j) ≡ true
    → find_ride (view (world_of s j)) id ≡ some r
    → clashes new r ≡ false

-- The call does not have to wait. Only ride rows count here: more orders are allowed than with the
-- locks of driver rows.
abbrev pub Proceeds : System → ℕ → Cmd → Type 0
Proceeds s i (add_ride r) = Unlocked s i r.id × Undisputed s i r
Proceeds s i (update_ride id from_statuses to_status extra) =
    (r : Ride)
    → find_ride (view (world_of s i)) id ≡ some r
    → status_in r.status from_statuses ≡ true
    → Unlocked s i id × Undisputed s i (with_ride_status to_status extra s.shared.clock r)
Proceeds s i _ = Unit

-- The requests that a worker may be given.
pub data IsRequest (env : Env) : Prog (Unit {0}) → Type 0 where
  requests_ride : (req : RideRequest) → IsRequest env (request_ride env req >> ret tt)
  cancels_ride : (id : ℕ) → IsRequest env (cancel_ride_endpoint id >> ret tt)
  completes_ride : (id : ℕ) → IsRequest env (complete_ride_endpoint id >> ret tt)
  reads_ride : (id : ℕ) → IsRequest env (Rides.get_ride id >> ret tt)
  creates_driver : (lat lng : Float) → IsRequest env (Drivers.create_driver env lat lng >> ret tt)
  moves_driver :
      (id : ℕ) (lat lng : Float)
      → IsRequest env (Drivers.update_driver_location env id lat lng >> ret tt)
  reads_driver : (id : ℕ) → IsRequest env (Drivers.get_driver id >> ret tt)
  lists_drivers :
      (status : Option DriverStatus) → IsRequest env (Drivers.list_drivers status >> ret tt)
  creates_rider : (lat lng : Float) → IsRequest env (Drivers.create_rider lat lng >> ret tt)
  reads_stats :
      (metrics : MetricsSnapshot) (latencies : Float × Float × Float)
      → IsRequest env (Stats.get_stats env metrics latencies >> ret tt)
  reads_surge : (zone : ℕ) → IsRequest env (Stats.get_zone_surge env zone >> ret tt)

module _ ⦃p : Platform⦄ where
  -- One call of a worker, with its answer.
  abbrev pub called_by : (s : System) (i : ℕ) (c : Cmd) → (Resp c → Prog (Unit {0})) → System
  called_by s i c k =
      let (r, w) = exec c (world_of s i) in
      record {
        shared = w.shared;
        workers = set_worker s.workers i (record { session = w.session; program = k r });
      }

  pub data Step (env : Env) : System → System → Type 0 where
    -- a worker takes a request, in a new session
    takes :
        (s : System) (i : ℕ) (m : Prog (Unit {0}))
        → IsRequest env m
        → Step env s (record s {
          workers = set_worker s.workers i (record { session = fresh_session; program = m });
        })
    calls :
        (s : System) (i : ℕ) (c : Cmd) (k : Resp c → Prog (Unit {0}))
        → (s.workers i).program ≡ op c k
        → Proceeds s i c
        → Step env s (called_by s i c k)
    -- a worker dies, or closes its session; PostgreSQL rolls its transaction back
    stops : (s : System) (i : ℕ) → Step env s (record s { workers = set_worker s.workers i idle })

  pub data Reach (env : Env) (s : System) : System → Type 0 where
    here : Reach env s s
    next : {t u : System} → Reach env s t → Step env t u → Reach env s u
