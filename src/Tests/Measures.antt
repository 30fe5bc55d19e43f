-- ===== src/Tests/Measures.antt =====
-- Event streams at small data.
use realtime_ride_matching_e.Prelude.{
  ℕ, ◌≡◌, ◌++◌, refl, Bool, true, false, none, List, [], ◌∷◌, arith,
}
use realtime_ride_matching_e.Observability.Events.{lock_failed, Event, new_bus, attach, publish}
use realtime_ride_matching_e.Observability.Lifespan.{
  Happening, opens, receives, closes, publishes, broadcasts, happen_all, lifespan, is_open, AtWork,
  lifespan_lem,
}
use realtime_ride_matching_e.Observability.FanOut.{attached}
use realtime_ride_matching_e.Observability.Fifo.{
  publish_all, broadcast_rounds, deliveries, publish-broadcast,
}

abbrev always : ℕ → Bool
always n = true

-- Three events for a queue of two.
publish-broadcast_example :
    broadcast_rounds 2 always (
      publish_all
        (lock_failed 1 1 ∷ lock_failed 1 2 ∷ lock_failed 1 3 ∷ [])
        (attached 2 [] (7 ∷ 8 ∷ []) []))
    ≡ attached 2 []
        (7 ∷ 8 ∷ [])
        ([] ++ deliveries (lock_failed 1 1 ∷ lock_failed 1 2 ∷ []) (7 ∷ 8 ∷ []))
publish-broadcast_example =
    publish-broadcast always 2 (lock_failed 1 1 ∷ lock_failed 1 2 ∷ lock_failed 1 3 ∷ [])
      (7 ∷ 8 ∷ []) [] (omega arith) refl

abbrev day : List Happening
day =
    opens 7 ∷ publishes (lock_failed 1 1) ∷ opens 8 ∷ receives 8 ∷ broadcasts always ∷ closes 7 ∷ []

lifespan_lem_example :
    ((ws : ℕ) → AtWork 2 ws (is_open ws day false) (happen_all day (attach new_bus 2)))
    × ((lifespan 2 day new_bus).queue ≡ none)
    × ((lifespan 2 day new_bus).connections ≡ [])
    × ((e : Event) → publish (lifespan 2 day new_bus) e ≡ lifespan 2 day new_bus)
unfolding new_bus
lifespan_lem_example = lifespan_lem 2 day new_bus refl
