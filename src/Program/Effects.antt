-- ===== src/Program/Effects.antt =====
-- What PostgreSQL, SQLAlchemy, Redis and the runtime are documented to do at each command.
use realtime_ride_matching_e.Prelude.{
  ◌≡◌, ◌≤◌, ◌⊎◌, ◌+◌, Option, none, some, ℕ, ◌+◌, Bool, true, false, ◌&&◌, Option, none, some, List,
  [], ◌∷◌, ◌++◌, ◌==◌, if◌then◌else◌, select, find_by, put_by, length, contains,
}
use realtime_ride_matching_e.Floats.{Float}
use realtime_ride_matching_e.Models.{
  Driver, DriverStatus, Ride, RideStatus, driver_status_eq, status_in,
}
use realtime_ride_matching_e.Storage.Tables.{
  rider_id_of, Assignment, Write, insert_driver, insert_rider, insert_ride, set_driver_status,
  set_driver_location, set_ride_status, driver_id_of, ride_id_of, with_ride_status, replay,
  find_driver, find_ride,
}
use realtime_ride_matching_e.Storage.Constraints.{violates_unique, accepts_insert}
use realtime_ride_matching_e.Redis
use realtime_ride_matching_e.Redis.{Lock}
use realtime_ride_matching_e.Observability.Metrics.{record_outcome, record_contention}
use realtime_ride_matching_e.Observability.Events.{publish}
use realtime_ride_matching_e.Program.State.{Shared, World, fresh_session, view}
use realtime_ride_matching_e.Program.Commands.{
  refresh_rider, integrity_error, database_error, redis_connection_error, Result, ok, err, Cmd,
  get_driver, get_ride, refresh_ride, query_drivers, query_rides, count_drivers, count_rides,
  distinct_zones, add_driver, add_rider, add_ride, assign_driver_status, assign_driver_location,
  flush, update_ride, commit, rollback, set_nx_px, compare_and_delete, uuid4, now, emit,
  record_attempt, record_lock_contention, Resp,
}

-- session.get: a mapped object is returned as it was loaded; `fresh` reads the row again.
unfoldable pub load_driver : World → ℕ → Option Driver × World
load_driver w id = elim (find_driver (view w) id) [
  | none ↦ (none, w)
  | some d ↦ (
    some d,
    record w {
      session = record w.session { driver_map = put_by driver_id_of d w.session.driver_map };
    },
  )
]

unfoldable pub load_ride : World → ℕ → Option Ride × World
load_ride w id = elim (find_ride (view w) id) [
  | none ↦ (none, w)
  | some r ↦ (
    some r,
    record w { session = record w.session { ride_map = put_by ride_id_of r w.session.ride_map } },
  )
]

-- The rows of a query as objects: those of the map where they are there.
abbrev pub as_objects {ℓ} : {A : Type ℓ} → (A → ℕ) → List A → List A → List A
as_objects key objects [] = []
as_objects key objects (x ∷ rows) = elim (find_by key (key x) objects) [
  | none ↦ x ∷ as_objects key objects rows
  | some y ↦ y ∷ as_objects key objects rows
]

abbrev pub put_all {ℓ} : {A : Type ℓ} → (A → ℕ) → List A → List A → List A
put_all key objects [] = objects
put_all key objects (x ∷ xs) = put_all key (put_by key x objects) xs

abbrev pub distinct : List ℕ → List ℕ
distinct [] = []
distinct (x ∷ xs) = let rest = distinct xs in if contains x rest then rest else x ∷ rest

abbrev pub zones_of : List Ride → List ℕ
zones_of [] = []
zones_of (r ∷ rs) = elim r.zone_id [ none ↦ zones_of rs | some z ↦ z ∷ zones_of rs ]

-- driver.status = st: the object changes at once, and the row when the session is flushed; an
-- assignment of the value that is there already is no change.
unfoldable pub set_status : World → ℕ → DriverStatus → Driver → World
set_status w id st d = if driver_status_eq d.status st then w else record w {
  session = record w.session {
    driver_map = put_by driver_id_of (record d { status = st }) w.session.driver_map;
    dirty = w.session.dirty ++ set_driver_status id st w.shared.clock ∷ [];
  };
}

unfoldable pub set_location : World → ℕ → Float → Float → ℕ → ℕ → Driver → World
set_location w id lat lng cell zone d =
    if (d.current_lat == lat && d.current_lng == lng) && (d.h3_index == cell && d.zone_id == zone)
    then w
    else record w {
      session = record w.session {
        driver_map =
            put_by driver_id_of
              (record d { current_lat = lat; current_lng = lng; h3_index = cell; zone_id = zone })
              w.session.driver_map;
        dirty = w.session.dirty ++ set_driver_location id lat lng cell zone w.shared.clock ∷ [];
      };
    }

-- What changes an object of the identity map; one that is not there cannot be assigned to.
abbrev pub on_object : World → ℕ → (Driver → World) → World
on_object w id f = elim (find_by driver_id_of id w.session.driver_map) [ none ↦ w | some d ↦ f d ]

abbrev pub add_write : World → Write → World
add_write w x = record w { session = record w.session { writes = w.session.writes ++ x ∷ [] } }

unfoldable pub flushed : World → World
flushed w = record w {
  session = record w.session { writes = w.session.writes ++ w.session.dirty; dirty = [] };
}

-- flush of a new ride: the row is inserted unless a constraint refuses it.
unfoldable pub insert_checked : World → Ride → Result (Unit {0}) × World
unfolding flushed
insert_checked w r =
    let w' = flushed w in
    if accepts_insert (view w') r
    then (
      ok tt,
      (let w'' = add_write w' (insert_ride r) in
          record w'' {
            session = record w''.session { ride_map = put_by ride_id_of r w''.session.ride_map };
          }),
    )
    else (err integrity_error, w')

-- The conditional UPDATE. PostgreSQL checks the unique indexes as it writes the new version.
unfoldable pub update_checked :
    World → ℕ → List RideStatus → RideStatus → Option Assignment → Result Bool × World
update_checked w id from_statuses to_status extra = elim (find_ride (view w) id) [
  | none ↦ (ok false, w)
  | some r ↦
      if status_in r.status from_statuses
      then if violates_unique (view w).rides (with_ride_status to_status extra w.shared.clock r)
        then (err integrity_error, w)
        else (ok true, add_write w (set_ride_status id to_status extra w.shared.clock))
      else (ok false, w)
]

-- session.commit: flush, COMMIT, expire every object. After a failure the transaction is gone.
abbrev pub called : Shared → Shared
called s = record s { calls = s.calls + 1 }

abbrev pub committed_world : World → World
committed_world w = record {
  shared = record (called w.shared) { db = replay w.session.dirty (view w) };
  session = fresh_session;
}

abbrev pub failed_world : World → World
failed_world w = record { shared = called w.shared; session = fresh_session }

abbrev pub with_locks : World → List Lock → World
with_locks w locks = record w { shared = record (called w.shared) { locks = locks } }

-- Redis carries out the call and replies.
abbrev pub redis_call : World → Bool × List Lock → Result Bool × World
redis_call w (b, locks) = (ok b, with_locks w locks)

abbrev pub at_clock : World → ℕ → World
at_clock w clock = record w { shared = record (called w.shared) { clock = clock } }

abbrev pub with_shared : World → Shared → World
with_shared w s = record w { shared = s }

-- The documented effect of each command. A clock reading and a new UUID stand for any: see `Varies`.
unfoldable pub effect : (c : Cmd) → World → Resp c × World
unfolding load_driver load_ride set_status set_location insert_checked update_checked
effect (get_driver id true) w = load_driver w id
effect (get_driver id false) w = elim (find_by driver_id_of id w.session.driver_map) [
  | none ↦ load_driver w id
  | some d ↦ (some d, w)
]
effect (get_ride id) w = elim (find_by ride_id_of id w.session.ride_map) [
  | none ↦ load_ride w id
  | some r ↦ (some r, w)
]
effect (refresh_ride id) w = load_ride w id
effect (refresh_rider id) w = (find_by rider_id_of id (view w).riders, w)
effect (query_drivers p) w =
    let rows = as_objects driver_id_of w.session.driver_map (select p (view w).drivers) in
    (
      rows,
      record w {
        session = record w.session { driver_map = put_all driver_id_of w.session.driver_map rows };
      },
    )
effect (query_rides p) w =
    let rows = as_objects ride_id_of w.session.ride_map (select p (view w).rides) in
    (
      rows,
      record w {
        session = record w.session { ride_map = put_all ride_id_of w.session.ride_map rows };
      },
    )
effect (count_drivers p) w = (length (select p (view w).drivers), w)
effect (count_rides p) w = (length (select p (view w).rides), w)
effect (distinct_zones p) w = (distinct (zones_of (select p (view w).rides)), w)
effect (add_driver d) w = (
  tt,
  (let w' = add_write (flushed w) (insert_driver d) in
      record w' {
        session = record w'.session { driver_map = put_by driver_id_of d w'.session.driver_map };
      }),
)
effect (add_rider r) w = (tt, add_write (flushed w) (insert_rider r))
effect (add_ride r) w = insert_checked w r
effect (assign_driver_status id st) w = (tt, on_object w id (set_status w id st))
effect (assign_driver_location id lat lng cell zone) w =
    (tt, on_object w id (set_location w id lat lng cell zone))
effect flush w = (tt, flushed w)
effect (update_ride id from_statuses to_status extra) w =
    update_checked w id from_statuses to_status extra
effect commit w = (ok tt, committed_world w)
effect rollback w = (tt, record w { session = fresh_session })
effect (set_nx_px key token ttl) w =
    redis_call w (Redis.set_nx_px w.shared.clock key token ttl w.shared.locks)
effect (compare_and_delete key token) w =
    redis_call w (Redis.compare_and_delete w.shared.clock key token w.shared.locks)
effect uuid4 w = (w.shared.calls, record w { shared = called w.shared })
effect now w = (w.shared.clock, at_clock w w.shared.clock)
effect (emit e) w = (tt, with_shared w (record w.shared { bus = publish w.shared.bus e }))
effect (record_attempt o latency) w = (
  tt,
  with_shared w
      (record w.shared { metrics = record_outcome w.shared.metrics o latency w.shared.clock }),
)
effect record_lock_contention w =
    (tt, with_shared w (record w.shared { metrics = record_contention w.shared.metrics }))

-- Redis does not reply: the command was carried out, or was not.
abbrev pub Unanswered : World → Bool × List Lock → Result Bool × World → Type 0
Unanswered w (b, locks) p =
    (p ≡ (err redis_connection_error, with_locks w w.shared.locks))
    ⊎ (p ≡ (err redis_connection_error, with_locks w locks))

-- How an answer may differ from the documented effect: the network and the server may fail, a UUID
-- is any number, and the clock moves on.
abbrev pub Varies : (c : Cmd) → World → Resp c × World → Type 0
Varies commit w p = p ≡ (err database_error, failed_world w)
Varies (set_nx_px key token ttl) w p =
    Unanswered w (Redis.set_nx_px w.shared.clock key token ttl w.shared.locks) p
Varies (compare_and_delete key token) w p =
    Unanswered w (Redis.compare_and_delete w.shared.clock key token w.shared.locks) p
Varies uuid4 w p = (id : ℕ) × (p ≡ (id, record w { shared = called w.shared }))
Varies now w p = (clock : ℕ) × (w.shared.clock ≤ clock) × (p ≡ (clock, at_clock w clock))
Varies _ w p = ⊥
