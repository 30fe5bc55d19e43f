-- ===== src/Api/App/Requests.antt =====
-- Which requests FastAPI accepts for which call: the ranges, names and lengths of app/schemas and
-- app/api, stated apart from the code that tests them.
use realtime_ride_matching_e.Prelude.{
  ◌↔◌, ℕ, ◌≡◌, ◌≤◌, refl, true, false, Bool, Option, none, some, String, str_eq, eq_iff, arith, inl,
  inr, Bool-cases, case_option, if◌then◌else◌, subst, sym, ap,
}
use realtime_ride_matching_e.Floats.{Float}
use realtime_ride_matching_e.Config.{Env}
use realtime_ride_matching_e.Models.{DriverStatus, available, busy, offline}
use realtime_ride_matching_e.Observability.Metrics.{MetricsSnapshot}
use realtime_ride_matching_e.Api.Schemas.{
  Validator, DriverCreate, DriverLocationUpdate, RiderCreate, RideCreateRequest, is_point, in_limit,
  driver_create_ok, driver_location_ok, rider_create_ok, ride_create_ok, header_ok, text_length,
}
use realtime_ride_matching_e.Api.Routing.{
  Request, get_drivers, post_driver, get_driver, patch_location, post_rider, post_ride, get_ride,
  post_cancel, post_complete, get_surge, get_stats, Call, list_drivers, create_driver, read_driver,
  update_driver_location, create_rider, request_ride, read_ride, cancel_ride, complete_ride,
  get_zone_surge, read_stats, driver_status_of, query_status, checked, validated,
}

abbrev pub status_name : DriverStatus → String
status_name available = "available"
status_name busy = "busy"
status_name offline = "offline"

abbrev pub KeyFits : Option String → Type 0
KeyFits none = Unit
KeyFits (some key) = text_length key ≤ 255

-- A latitude between -90 and 90 and a longitude between -180 and 180.
abbrev pub IsPoint : Env → Validator → Float → Float → Type 0
IsPoint env v lat lng =
    (v.accepts (env.floats.sub (env.floats.of_int 0) (env.floats.of_int 90)) (env.floats.of_int 90)
        lat
      ≡ true)
    × (v.accepts (env.floats.sub (env.floats.of_int 0) (env.floats.of_int 180))
          (env.floats.of_int 180) lng
        ≡ true)

pub data Accepts (env : Env) (v : Validator) : Request → Call → Type 0 where
  all_drivers : Accepts env v (get_drivers none) (list_drivers none)
  drivers_with :
      (status : DriverStatus)
      → Accepts env v (get_drivers (some (status_name status))) (list_drivers (some status))
  new_driver :
      (p : DriverCreate)
      → IsPoint env v p.current_lat p.current_lng
      → Accepts env v (post_driver (some p)) (create_driver p)
  one_driver :
      (text : String) (id : ℕ)
      → v.parse_uuid text ≡ some id
      → Accepts env v (get_driver text) (read_driver id)
  location :
      (text : String) (id : ℕ) (p : DriverLocationUpdate)
      → v.parse_uuid text ≡ some id
      → IsPoint env v p.lat p.lng
      → Accepts env v (patch_location text (some p)) (update_driver_location id p)
  new_rider :
      (p : RiderCreate)
      → IsPoint env v p.pickup_lat p.pickup_lng
      → Accepts env v (post_rider (some p)) (create_rider p)
  new_ride :
      (p : RideCreateRequest) (key : Option String)
      → IsPoint env v p.pickup_lat p.pickup_lng
      → KeyFits key
      → Accepts env v (post_ride (some p) key) (request_ride p key)
  one_ride :
      (text : String) (id : ℕ)
      → v.parse_uuid text ≡ some id
      → Accepts env v (get_ride text) (read_ride id)
  cancelling :
      (text : String) (id : ℕ)
      → v.parse_uuid text ≡ some id
      → Accepts env v (post_cancel text) (cancel_ride id)
  completing :
      (text : String) (id : ℕ)
      → v.parse_uuid text ≡ some id
      → Accepts env v (post_complete text) (complete_ride id)
  any_zone : (zone : ℕ) → Accepts env v (get_surge zone) (get_zone_surge zone)
  any_stats :
      (metrics : MetricsSnapshot) (latencies : Float × Float × Float)
      → Accepts env v (get_stats metrics latencies) (read_stats metrics latencies)

same : {B : Type 0} {b c : B} → some b ≡ some c → b ≡ c
same h = cc

-- A `some` result of a chain, of a guard and of a checked payload.
given :
    {A B : Type 0} (o : Option A) (k : A → Option B) (b : B)
    → case_option o none k ≡ some b
    → (a : A) × (o ≡ some a) × (k a ≡ some b)
given none k b h = cc
given (some a) k b h = (a, refl, h)

guarded :
    {B : Type 0} (t : Bool) (b c : B) → (if t then some b else none) ≡ some c → (t ≡ true) × (b ≡ c)
guarded true b c h = (refl, same h)
guarded false b c h = cc

checked_lem :
    {A : Type 0} (is_ok : A → Bool) (o : Option A) (a : A)
    → checked is_ok o ≡ some a
    → (o ≡ some a) × (is_ok a ≡ true)
unfolding checked
checked_lem is_ok none a h = cc
checked_lem is_ok (some x) a h =
    let (k, e) = guarded (is_ok x) x a h in (ap some e, subst (λ y. is_ok y ≡ true) e k)

named :
    (text : String) (status : DriverStatus)
    → driver_status_of text ≡ some status
    → text ≡ status_name status
unfolding driver_status_of
named text status h = elim (Bool-cases (str_eq text "available")) [
  | inl e ↦ subst (λ s. text ≡ status_name s) (same (rw e at h)) ((eq_iff text "available").0 e)
  | inr e ↦ elim (Bool-cases (str_eq text "busy")) [
    | inl e' ↦
        subst (λ s. text ≡ status_name s) (same (rw (e, e') at h)) ((eq_iff text "busy").0 e')
    | inr e' ↦
        let (e'', k) = guarded (str_eq text "offline") offline status (rw (e, e') at h) in
        subst (λ s. text ≡ status_name s) k ((eq_iff text "offline").0 e'')
  ]
]

header_lem : (key : Option String) → (header_ok key ≡ true) ↔ KeyFits key
unfolding header_ok
header_lem none = ground arith
header_lem (some key) = ground arith

module _ (env : Env) (v : Validator) where
  point_lem : (lat lng : Float) → (is_point env.floats v lat lng ≡ true) ↔ IsPoint env v lat lng
  unfolding is_point in_limit
  point_lem lat lng = ground arith

  -- What fits is accepted.
  pub Accepts-validated :
      (request : Request) (call : Call)
      → Accepts env v request call
      → validated env v request ≡ some call
  unfolding validated query_status driver_status_of checked driver_create_ok driver_location_ok
      rider_create_ok ride_create_ok
  Accepts-validated _ _ all_drivers = refl
  Accepts-validated _ _ (drivers_with available) = refl
  Accepts-validated _ _ (drivers_with busy) = refl
  Accepts-validated _ _ (drivers_with offline) = refl
  Accepts-validated _ _ (new_driver p h) = rw ((point_lem p.current_lat p.current_lng).1 h) refl
  Accepts-validated _ _ (one_driver text id e) = rw e refl
  Accepts-validated _ _ (location text id p e h) = rw (e, (point_lem p.lat p.lng).1 h) refl
  Accepts-validated _ _ (new_rider p h) = rw ((point_lem p.pickup_lat p.pickup_lng).1 h) refl
  Accepts-validated _ _ (new_ride p key h k) =
      rw ((point_lem p.pickup_lat p.pickup_lng).1 h, (header_lem key).1 k) refl
  Accepts-validated _ _ (one_ride text id e) = rw e refl
  Accepts-validated _ _ (cancelling text id e) = rw e refl
  Accepts-validated _ _ (completing text id e) = rw e refl
  Accepts-validated _ _ (any_zone zone) = refl
  Accepts-validated _ _ (any_stats metrics latencies) = refl

  -- What is accepted fits.
  pub validated-Accepts :
      (request : Request) (call : Call)
      → validated env v request ≡ some call
      → Accepts env v request call
  unfolding validated query_status driver_create_ok driver_location_ok rider_create_ok
      ride_create_ok
  validated-Accepts (get_drivers none) call h = subst (Accepts env v _) (same h) all_drivers
  validated-Accepts (get_drivers (some text)) call h =
      let (status, e, h') = given (driver_status_of text) _ call h in
      subst (λ t. Accepts env v (get_drivers (some t)) call) (sym (named text status e))
        (subst (Accepts env v _) (same h') (drivers_with status))
  validated-Accepts (post_driver p) call h =
      let (q, e, h') = given (checked (driver_create_ok env.floats v) p) _ call h in
      let (e', k) = checked_lem _ p q e in
      subst (λ o. Accepts env v (post_driver o) call) (sym e')
        (subst (Accepts env v _) (same h')
          (new_driver q ((point_lem q.current_lat q.current_lng).0 k)))
  validated-Accepts (get_driver text) call h =
      let (id, e, h') = given (v.parse_uuid text) _ call h in
      subst (Accepts env v _) (same h') (one_driver text id e)
  validated-Accepts (patch_location text p) call h =
      let (id, e, g) = given (v.parse_uuid text) _ call h in
      let (q, e', h') = given (checked (driver_location_ok env.floats v) p) _ call g in
      let (e'', k) = checked_lem _ p q e' in
      subst (λ o. Accepts env v (patch_location text o) call) (sym e'')
        (subst (Accepts env v _) (same h') (location text id q e ((point_lem q.lat q.lng).0 k)))
  validated-Accepts (post_rider p) call h =
      let (q, e, h') = given (checked (rider_create_ok env.floats v) p) _ call h in
      let (e', k) = checked_lem _ p q e in
      subst (λ o. Accepts env v (post_rider o) call) (sym e')
        (subst (Accepts env v _) (same h')
          (new_rider q ((point_lem q.pickup_lat q.pickup_lng).0 k)))
  validated-Accepts (post_ride p key) call h =
      let (q, e, g) = given (checked (ride_create_ok env.floats v) p) _ call h in
      let (e', k) = checked_lem _ p q e in
      let (fits, h') = guarded (header_ok key) (request_ride q key) call g in
      subst (λ o. Accepts env v (post_ride o key) call) (sym e')
        (subst (Accepts env v _) h'
          (new_ride q key ((point_lem q.pickup_lat q.pickup_lng).0 k) ((header_lem key).0 fits)))
  validated-Accepts (get_ride text) call h =
      let (id, e, h') = given (v.parse_uuid text) _ call h in
      subst (Accepts env v _) (same h') (one_ride text id e)
  validated-Accepts (post_cancel text) call h =
      let (id, e, h') = given (v.parse_uuid text) _ call h in
      subst (Accepts env v _) (same h') (cancelling text id e)
  validated-Accepts (post_complete text) call h =
      let (id, e, h') = given (v.parse_uuid text) _ call h in
      subst (Accepts env v _) (same h') (completing text id e)
  validated-Accepts (get_surge zone) call h = subst (Accepts env v _) (same h) (any_zone zone)
  validated-Accepts (get_stats metrics latencies) call h =
      subst (Accepts env v _) (same h) (any_stats metrics latencies)
