-- ===== src/Api/Schemas.antt =====
-- app/schemas: the payloads with the ranges of their fields, and what of a row a response shows.
-- That a body is JSON with these fields is left to the framework.
use realtime_ride_matching_e.Prelude.{
  ℕ, zero, suc, Bool, ◌&&◌, Option, none, some, String, leb, true,
}
use realtime_ride_matching_e.Floats.{Float, Floats}
use realtime_ride_matching_e.Models.{Ride, RideStatus}

-- pydantic: Field(ge=low, le=high) on a float, and the UUID that a text stands for, if it does.
pub record Validator : Type 0 where
  pub accepts : (low high value : Float) → Bool
  pub parse_uuid : String → Option ℕ

pub record DriverCreate : Type 0 where
  pub current_lat : Float
  pub current_lng : Float

pub record DriverLocationUpdate : Type 0 where
  pub lat : Float
  pub lng : Float

pub record RiderCreate : Type 0 where
  pub pickup_lat : Float
  pub pickup_lng : Float

pub record RideCreateRequest : Type 0 where
  pub rider_id : ℕ
  pub pickup_lat : Float
  pub pickup_lng : Float

pub record RideResponse : Type 0 where
  pub id : ℕ
  pub rider_id : ℕ
  pub driver_id : Option ℕ
  pub status : RideStatus
  pub pickup_lat : Float
  pub pickup_lng : Float
  pub matched_at : Option ℕ
  pub fare : Option ℕ
  pub surge_multiplier : Option Float
  pub zone_id : Option ℕ
  pub created_at : ℕ
  pub updated_at : ℕ

-- from_attributes: the idempotency key is not shown.
unfoldable pub ride_response : Ride → RideResponse
ride_response r = record {
  id = r.id;
  rider_id = r.rider_id;
  driver_id = r.driver_id;
  status = r.status;
  pickup_lat = r.pickup_lat;
  pickup_lng = r.pickup_lng;
  matched_at = r.matched_at;
  fare = r.fare;
  surge_multiplier = r.surge_multiplier;
  zone_id = r.zone_id;
  created_at = r.created_at;
  updated_at = r.updated_at;
}

-- len(key)
pub text_length : String → ℕ
text_length String.[] = zero
text_length (String.◌∷◌ c s) = suc (text_length s)

module _ (f : Floats) (v : Validator) where
  -- a coordinate between -limit and limit
  unfoldable pub in_limit : ℕ → Float → Bool
  in_limit limit = v.accepts (f.sub (f.of_int 0) (f.of_int limit)) (f.of_int limit)

  unfoldable pub is_point : Float → Float → Bool
  unfolding in_limit
  is_point lat lng = in_limit 90 lat && in_limit 180 lng

  unfoldable pub driver_create_ok : DriverCreate → Bool
  unfolding is_point
  driver_create_ok p = is_point p.current_lat p.current_lng

  unfoldable pub driver_location_ok : DriverLocationUpdate → Bool
  unfolding is_point
  driver_location_ok p = is_point p.lat p.lng

  unfoldable pub rider_create_ok : RiderCreate → Bool
  unfolding is_point
  rider_create_ok p = is_point p.pickup_lat p.pickup_lng

  unfoldable pub ride_create_ok : RideCreateRequest → Bool
  unfolding is_point
  ride_create_ok p = is_point p.pickup_lat p.pickup_lng

-- The Idempotency-Key header: str | None, max_length=255
unfoldable pub header_ok : Option String → Bool
unfolding text_length
header_ok none = true
header_ok (some key) = leb (text_length key) 255
