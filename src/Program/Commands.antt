-- ===== src/Program/Commands.antt =====
-- Commands, programs and their control flow: sequencing, `raise`, `try … finally`.
use realtime_ride_matching_e.Prelude.{ℕ, Bool, Option, List}
use realtime_ride_matching_e.Floats.{Float}
use realtime_ride_matching_e.Models.{Driver, DriverStatus, Rider, Ride, RideStatus}
use realtime_ride_matching_e.Storage.Tables.{Assignment}
use realtime_ride_matching_e.Observability.Metrics.{Outcome}
use realtime_ride_matching_e.Observability.Events.{Event}

-- The exceptions that the code raises, catches or lets pass.
pub data Exn : Type 0 where
  value_error : Exn
  no_available_driver : Exn
  -- with the status that the message names
  invalid_ride_state : Option RideStatus → Exn
  ride_not_found : Exn
  driver_not_found : Exn
  idempotency_key_conflict : Exn
  locking_unavailable : Exn
  -- redis.exceptions.ConnectionError and TimeoutError
  redis_connection_error : Exn
  -- sqlalchemy.exc.IntegrityError, and any other SQLAlchemyError
  integrity_error : Exn
  database_error : Exn

pub data Result (A : Type 0) : Type 0 where
  ok : A → Result A
  err : Exn → Result A

pub data Cmd : Type 0 where
  -- session.get(Driver, id [, populate_existing=True]), session.get(Ride, id)
  get_driver : (id : ℕ) (fresh : Bool) → Cmd
  get_ride : (id : ℕ) → Cmd
  -- session.refresh(ride), session.refresh(rider)
  refresh_ride : (id : ℕ) → Cmd
  refresh_rider : (id : ℕ) → Cmd
  -- session.scalars(select(...).where(...))
  query_drivers : (where_clause : Driver → Bool) → Cmd
  query_rides : (where_clause : Ride → Bool) → Cmd
  -- select(func.count()), select(Ride.zone_id).distinct()
  count_drivers : (where_clause : Driver → Bool) → Cmd
  count_rides : (where_clause : Ride → Bool) → Cmd
  distinct_zones : (where_clause : Ride → Bool) → Cmd
  -- session.add(...); session.flush()
  add_driver : Driver → Cmd
  add_rider : Rider → Cmd
  add_ride : Ride → Cmd
  -- driver.status = ...; driver.current_lat = ... and so on
  assign_driver_status : (id : ℕ) → DriverStatus → Cmd
  assign_driver_location : (id : ℕ) (lat lng : Float) (h3_index zone_id : ℕ) → Cmd
  flush : Cmd
  -- UPDATE rides SET status = to_status, ... WHERE id = id AND status IN from_statuses
  update_ride :
      (id : ℕ) (from_statuses : List RideStatus) (to_status : RideStatus)
      (extra_values : Option Assignment)
      → Cmd
  commit : Cmd
  rollback : Cmd
  -- SET key token NX PX ttl_ms; the compare-and-delete script
  set_nx_px : (key token ttl_ms : ℕ) → Cmd
  compare_and_delete : (key token : ℕ) → Cmd
  -- uuid.uuid4(); datetime.now, time.perf_counter
  uuid4 : Cmd
  now : Cmd
  -- the process-wide event bus and metrics tracker
  emit : Event → Cmd
  record_attempt : Outcome → (latency : ℕ) → Cmd
  record_lock_contention : Cmd

abbrev pub Resp : Cmd → Type 0
Resp (get_driver id fresh) = Option Driver
Resp (get_ride id) = Option Ride
Resp (refresh_ride id) = Option Ride
Resp (refresh_rider id) = Option Rider
Resp (query_drivers p) = List Driver
Resp (query_rides p) = List Ride
Resp (count_drivers p) = ℕ
Resp (count_rides p) = ℕ
Resp (distinct_zones p) = List ℕ
Resp (add_driver d) = Unit
Resp (add_rider r) = Unit
Resp (add_ride r) = Result Unit
Resp (assign_driver_status id st) = Unit
Resp (assign_driver_location id lat lng cell zone) = Unit
Resp flush = Unit
Resp (update_ride id from to extra) = Result Bool
Resp commit = Result Unit
Resp rollback = Unit
Resp (set_nx_px key token ttl) = Result Bool
Resp (compare_and_delete key token) = Result Bool
Resp uuid4 = ℕ
Resp now = ℕ
Resp (emit e) = Unit
Resp (record_attempt o l) = Unit
Resp record_lock_contention = Unit

pub data Prog (A : Type 0) : Type 0 where
  ret : A → Prog A
  raise : Exn → Prog A
  op : (c : Cmd) → (Resp c → Prog A) → Prog A

abbrev pub call : (c : Cmd) → Prog (Resp c)
call c = op c ret

infixl 5 ◌>>=◌ ◌>>◌
unfoldable pub ◌>>=◌ : {A B : Type 0} → Prog A → (A → Prog B) → Prog B
ret a >>= f = f a
raise e >>= f = raise e
op c k >>= f = op c (λ r. k r >>= f)

abbrev pub ◌>>◌ : {A B : Type 0} → Prog A → Prog B → Prog B
m >> n = m >>= λ _. n

-- A result that is an exception is raised.
abbrev pub lift : {A : Type 0} → Result A → Prog A
lift (ok a) = ret a
lift (err e) = raise e

-- try: body finally: cleanup. An exception of the cleanup takes the place of the body's outcome.
unfoldable pub finally : {A : Type 0} → Prog A → Prog (Unit {0}) → Prog A
unfolding ◌>>=◌
finally (ret a) cleanup = cleanup >>= λ _. ret a
finally (raise e) cleanup = cleanup >>= λ _. raise e
finally (op c k) cleanup = op c (λ r. finally (k r) cleanup)

-- try: body except as a handler that sees every outcome.
unfoldable pub attempt : {A B : Type 0} → Prog A → (Result A → Prog B) → Prog B
attempt (ret a) handle = handle (ok a)
attempt (raise e) handle = handle (err e)
attempt (op c k) handle = op c (λ r. attempt (k r) handle)
