-- ===== src/Observability/Events.antt =====
-- observability/events.py: the event bus between the request threads and the WebSocket clients.
-- A connection is named by a number; `alive` says whether a send to it succeeds.
use realtime_ride_matching_e.Prelude.{
  ℕ, Bool, not, ◌&&◌, Option, none, some, List, [], ◌∷◌, ◌++◌, if◌then◌else◌, leb, ◌==◌, length,
  select, contains,
}
use realtime_ride_matching_e.Floats.{Float}

-- What `emit` is called with, by event type.
pub data Event : Type 0 where
  candidates_found : (ride_id count : ℕ) → Event
  lock_failed : (ride_id driver_id : ℕ) → Event
  lock_acquired : (ride_id driver_id : ℕ) → Event
  driver_assigned : (ride_id driver_id : ℕ) (pickup_lat pickup_lng : Float) → Event
  no_driver_available : (ride_id : ℕ) (pickup_lat pickup_lng : Float) → Event
  ride_requested :
      (ride_id rider_id zone_id : ℕ) (surge_multiplier pickup_lat pickup_lng : Float) → Event
  ride_cancelled : (ride_id : ℕ) (driver_id : Option ℕ) → Event
  ride_completed : (ride_id : ℕ) (driver_id : Option ℕ) → Event

-- asyncio.Queue(maxsize), oldest event first
pub record Queue : Type 0 where
  pub maxsize : ℕ
  pub items : List Event

-- `queue` is `none` while no lifespan is attached; loop and queue are set and cleared together.
-- `delivered` is what was sent to each connection, oldest first.
pub record EventBus : Type 0 where
  pub queue : Option Queue
  pub connections : List ℕ
  pub delivered : List (ℕ × Event)

unfoldable pub new_bus : EventBus
new_bus = record { queue = none; connections = []; delivered = [] }

unfoldable pub attach : EventBus → ℕ → EventBus
attach bus maxsize = record bus { queue = some (record { maxsize = maxsize; items = [] }) }

unfoldable pub detach : EventBus → EventBus
detach bus = record bus { queue = none; connections = [] }

-- A queue of maxsize 0 has no limit.
abbrev pub is_full : Queue → Bool
is_full q = not (q.maxsize == 0) && leb q.maxsize (length q.items)

-- _put_nowait: an event that finds the queue full is dropped
unfoldable pub put_nowait : Queue → Event → Queue
put_nowait q e = if is_full q then q else record q { items = q.items ++ e ∷ [] }

-- publish, its callback on the event loop included
unfoldable pub publish : EventBus → Event → EventBus
unfolding put_nowait
publish bus e = elim bus.queue [
  | none ↦ bus
  | some q ↦ record bus { queue = some (put_nowait q e) }
]

unfoldable pub register : EventBus → ℕ → EventBus
register bus ws = record bus {
  connections = if contains ws bus.connections then bus.connections else bus.connections ++ ws ∷ [];
}

abbrev pub discard : ℕ → List ℕ → List ℕ
discard ws = select (λ c. not (c == ws))

unfoldable pub unregister : EventBus → ℕ → EventBus
unregister bus ws = record bus { connections = discard ws bus.connections }

-- The fan-out of one event over a copy of the connections: a failed send drops its connection.
unfoldable pub send_to_each : (ℕ → Bool) → Event → List ℕ → EventBus → EventBus
send_to_each alive e [] bus = bus
send_to_each alive e (ws ∷ rest) bus = send_to_each alive e rest (
    if alive ws
    then record bus { delivered = bus.delivered ++ (ws, e) ∷ [] }
    else record bus { connections = discard ws bus.connections })

abbrev pub after_get : (ℕ → Bool) → EventBus → Queue → List Event → EventBus
after_get alive bus q [] = bus
after_get alive bus q (e ∷ rest) =
    send_to_each alive e bus.connections (record bus { queue = some (record q { items = rest }) })

-- One round of run_broadcast_loop; with no event it waits.
unfoldable pub broadcast_round : (ℕ → Bool) → EventBus → EventBus
unfolding send_to_each
broadcast_round alive bus = elim bus.queue [ none ↦ bus | some q ↦ after_get alive bus q q.items ]
