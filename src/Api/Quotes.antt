-- ===== src/Api/Quotes.antt =====
-- The two views of surge pricing, GET /stats and GET /zones/{zone_id}/surge: app/pricing/surge.py.
use realtime_ride_matching_e.Prelude.{
  ℕ, ◌≤◌, ◌≡◌, refl, ap, ◌∙◌, Bool, false, ◌&&◌, some, List, [], ◌∷◌, map, any, count, contains,
  select, leb, Option-cases, inl, inr, arith,
}
use realtime_ride_matching_e.Config.{Env}
use realtime_ride_matching_e.Models.{Ride}
use realtime_ride_matching_e.Program.State.{World, view}
use realtime_ride_matching_e.Program.Commands.{ok, distinct_zones, ◌>>=◌}
use realtime_ride_matching_e.Program.Exec.{Platform, exec, run}
use realtime_ride_matching_e.Program.Effects.{effect, distinct, zones_of}
use realtime_ride_matching_e.Program.Laws.{run_laws, run-bind}
use realtime_ride_matching_e.Program.Answers.{surely, count_rides_lem, count_drivers_lem}
use realtime_ride_matching_e.Repositories.Drivers
use realtime_ride_matching_e.Repositories.Rides
use realtime_ride_matching_e.Repositories.Rides.{in_zone, has_zone}
use realtime_ride_matching_e.Pricing.{
  SurgeResult, window_start, surge_multiplier, zone_surge, surge_of_zones, surge_by_zone,
}
use realtime_ride_matching_e.RideService.Inserting.{quoted}

-- A ride with a zone, requested since `since`.
abbrev pub is_recent : ℕ → Ride → Bool
is_recent since r = has_zone r.zone_id && leb since r.created_at

contains-distinct : (z : ℕ) (xs : List ℕ) → contains z (distinct xs) ≡ contains z xs
contains-distinct z [] = refl
contains-distinct z (x ∷ xs) = ground (arith, contains-distinct z xs, contains-distinct x xs)

count-absent : (z : ℕ) (xs : List ℕ) → contains z xs ≡ false → count z xs ≡ 0
count-absent z [] h = refl
count-absent z (x ∷ xs) h = ground (arith, count-absent z xs)

count-distinct : (z : ℕ) (xs : List ℕ) → count z (distinct xs) ≤ 1
count-distinct z [] = omega arith
count-distinct z (x ∷ xs) = ground (arith, count-distinct z xs, count-absent z (distinct xs))

contains-zones :
    (since z : ℕ) (rs : List Ride)
    → contains z (zones_of (select (is_recent since) rs))
      ≡ any (λ r. leb since r.created_at && in_zone z r.zone_id) rs
contains-zones since z [] = refl
contains-zones since z (r ∷ rs) = elim (Option-cases r.zone_id) [
  | inl e ↦ ground (arith, e, contains-zones since z rs)
  | inr (k, e) ↦ ground (arith, e, contains-zones since z rs)
]

module _ ⦃p : Platform⦄ (env : Env) (at : ℕ) (w : World) where
  zone_surge_quotes :
      (zone : ℕ) → run (zone_surge env zone (some at)) w ≡ (ok (quoted env (view w) zone at), w)
  unfolding zone_surge Rides.count_recent_active_in_zone Drivers.count_available_in_zone run
      surge_multiplier ◌>>=◌
  zone_surge_quotes zone = simp (count_rides_lem, count_drivers_lem) refl

  surge_of_zones_quotes :
      (zones : List ℕ)
      → run (surge_of_zones env at zones) w
        ≡ (ok (map (λ zone. quoted env (view w) zone at) zones), w)
  unfolding surge_of_zones
  surge_of_zones_quotes [] = simp run_laws refl
  surge_of_zones_quotes (zone ∷ zones) =
      simp (run-bind, zone_surge_quotes zone, surge_of_zones_quotes zones, run_laws) refl

  recent_zones : List ℕ
  recent_zones = distinct (zones_of (select (is_recent (window_start env at)) (view w).rides))

  surge_by_zone_run :
      run (surge_by_zone env (some at)) w
      ≡ (ok (map (λ zone. quoted env (view w) zone at) recent_zones), w)
  unfolding surge_by_zone Rides.list_recent_zone_ids effect recent_zones ◌>>=◌ run
  surge_by_zone_run =
      let rows : exec (distinct_zones (is_recent (window_start env at))) w
          ≡ (distinct (zones_of (select (is_recent (window_start env at)) (view w).rides)), w) =
        surely (distinct_zones (is_recent (window_start env at))) w (λ v. v) in
      ap (λ (x : List ℕ × World). run (surge_of_zones env at x.0) x.1) rows
      ∙ surge_of_zones_quotes
          (distinct (zones_of (select (is_recent (window_start env at)) (view w).rides)))

  -- At one time and on the same rows: the surge map of GET /stats has just one entry for each zone
  -- with a ride requested in the window, and each entry is what GET /zones/{zone_id}/surge answers
  -- for its zone: the price that the formula gives for the zone's demand and supply. Neither changes
  -- anything.
  pub surge_by_zone_agrees :
      (zones : List ℕ) × (entry : ℕ → SurgeResult) × (run (surge_by_zone env (some at)) w
        ≡ (ok (map entry zones), w))
      × ((zone : ℕ) → run (zone_surge env zone (some at)) w ≡ (ok (entry zone), w))
      × ((zone : ℕ) → entry zone ≡ quoted env (view w) zone at)
      × ((zone : ℕ) → count zone zones ≤ 1)
      × ((zone : ℕ)
          → contains zone zones
            ≡ any
                (λ r. leb (window_start env at) r.created_at && in_zone zone r.zone_id)
                (view w).rides)
  unfolding recent_zones
  surge_by_zone_agrees = (
    recent_zones,
    λ zone. quoted env (view w) zone at,
    surge_by_zone_run,
    zone_surge_quotes,
    λ zone. refl,
    λ zone.
        count-distinct zone (zones_of (select (is_recent (window_start env at)) (view w).rides)),
    λ zone.
        contains-distinct zone (zones_of (select (is_recent (window_start env at)) (view w).rides))
        ∙ contains-zones (window_start env at) zone (view w).rides,
  )
