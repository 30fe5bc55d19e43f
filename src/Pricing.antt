-- ===== src/Pricing.antt =====
-- app/pricing/surge.py
pub mod Bounds
use realtime_ride_matching_e.Prelude.{
  ℕ, ◌-◌, ◌*◌, max, if◌then◌else◌, Option, none, some, List, [], ◌∷◌,
}
use realtime_ride_matching_e.Floats.{Float, Floats}
use realtime_ride_matching_e.Config.{Env}
use realtime_ride_matching_e.Program.Commands.{Prog, ret, call, ◌>>=◌, now}
use realtime_ride_matching_e.Repositories.Drivers
use realtime_ride_matching_e.Repositories.Rides

pub record SurgeResult : Type 0 where
  pub zone_id : ℕ
  pub demand : ℕ
  pub supply : ℕ
  pub multiplier : Float

-- The built-in max(a, b) and min(a, b): the first argument unless the second is beyond it.
abbrev pub max_float : Floats → Float → Float → Float
max_float f a b = if f.lt a b then b else a

abbrev pub min_float : Floats → Float → Float → Float
min_float f a b = if f.lt b a then b else a

-- The quotient of two ints is that of the two floats, below 2^53.
unfoldable pub surge_multiplier : Env → ℕ → ℕ → Float
surge_multiplier env demand supply =
    let f = env.floats in
    let one = f.decimal 10 1 in
    let ratio = f.div (f.of_int demand) (f.of_int (max supply 1)) in
    let raw = f.add one (f.mul env.settings.surge_sensitivity ratio) in
    min_float f (max_float f raw one) env.settings.surge_max_multiplier

-- now or datetime.now(UTC)
abbrev pub clock_or : Option ℕ → Prog ℕ
clock_or none = call now
clock_or (some at) = ret at

-- A window that reaches back past the epoch of the clock starts there.
abbrev pub window_start : Env → ℕ → ℕ
window_start env at = at - env.settings.surge_demand_window_seconds * 1000

unfoldable pub zone_surge : Env → ℕ → Option ℕ → Prog SurgeResult
zone_surge env zone_id pinned = do
  at ← clock_or pinned
  demand ← Rides.count_recent_active_in_zone zone_id (window_start env at)
  supply ← Drivers.count_available_in_zone zone_id
  ret (record {
    zone_id = zone_id;
    demand = demand;
    supply = supply;
    multiplier = surge_multiplier env demand supply;
  })

unfoldable pub surge_of_zones : Env → ℕ → List ℕ → Prog (List SurgeResult)
surge_of_zones env at [] = ret []
surge_of_zones env at (zone ∷ zones) = do
  first ← zone_surge env zone (some at)
  others ← surge_of_zones env at zones
  ret (first ∷ others)

-- The dict by zone id: its entries in the order of the query.
unfoldable pub surge_by_zone : Env → Option ℕ → Prog (List SurgeResult)
surge_by_zone env pinned = do
  at ← clock_or pinned
  zones ← Rides.list_recent_zone_ids (window_start env at)
  surge_of_zones env at zones
