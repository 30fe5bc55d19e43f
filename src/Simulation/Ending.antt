-- ===== src/Simulation/Ending.antt =====
-- One tick of the lifecycle loop: which rides it ends, and which it keeps.
use realtime_ride_matching_e.Prelude.{◌≡◌, not, List, [], ◌∷◌, if◌then◌else◌}
use realtime_ride_matching_e.Floats.{Float}
use realtime_ride_matching_e.Simulation.Client.{Request, post_cancel, post_complete}
use realtime_ride_matching_e.Simulation.Runner.{
  Simulation, Setup, PendingLifecycle, is_due, is_later,
}

-- The request that ends a ride.
abbrev pub end_request : PendingLifecycle → Request
end_request r = if r.cancel then post_cancel r.ride_id else post_complete r.ride_id

-- Each item of a list is in the first part or in the second, once, and both keep the order.
pub data Divides {A : Type 0} : List A → List A → List A → Type 0 where
  nothing : Divides [] [] []
  to_first :
      (x : A) {xs first second : List A}
      → Divides xs first second
      → Divides (x ∷ xs) (x ∷ first) second
  to_second :
      (x : A) {xs first second : List A}
      → Divides xs first second
      → Divides (x ∷ xs) first (x ∷ second)

module _ (setup : Setup) where
  -- The clock reading and the due time are numbers: one of <= and > holds.
  abbrev pub Comparable : Float → PendingLifecycle → Type 0
  Comparable at r = is_later setup at r ≡ not (is_due setup at r)
