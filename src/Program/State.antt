-- ===== src/Program/State.antt =====
-- The state that commands act on.
use realtime_ride_matching_e.Prelude.{ℕ, List, []}
use realtime_ride_matching_e.Models.{Driver, Ride}
use realtime_ride_matching_e.Redis.{Lock}
use realtime_ride_matching_e.Observability.Metrics.{MetricsTracker}
use realtime_ride_matching_e.Observability.Events.{EventBus}
use realtime_ride_matching_e.Storage.Tables.{Tables, Write, replay}

-- What all sessions share: the committed tables, the Redis keys, the clock and the process state.
-- `calls` counts the calls whose answers depend on more than this, so that two like calls may be
-- answered differently.
pub record Shared : Type 0 where
  pub db : Tables
  pub locks : List Lock
  pub clock : ℕ
  pub calls : ℕ
  pub bus : EventBus
  pub metrics : MetricsTracker

-- An SQLAlchemy session: the objects of its identity map, the attribute changes that are not yet
-- flushed, and the statements of the open transaction.
pub record Session : Type 0 where
  pub driver_map : List Driver
  pub ride_map : List Ride
  pub dirty : List Write
  pub writes : List Write

pub record World : Type 0 where
  pub shared : Shared
  pub session : Session

abbrev pub fresh_session : Session
fresh_session = record { driver_map = []; ride_map = []; dirty = []; writes = [] }

-- What a statement of this session reads: the committed rows and its own writes.
abbrev pub view : World → Tables
view w = replay w.session.writes w.shared.db
