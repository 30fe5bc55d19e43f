-- ===== src/Workers/History.antt =====
-- The life of one row across the commits of all workers.
use realtime_ride_matching_e.Prelude.{
  ℕ, ◌≡◌, ◌≢◌, refl, sym, subst, Option, none, some, ◌⊎◌, inl, inr,
}
use realtime_ride_matching_e.Models.{Ride, RideStatus, requested, completed, cancelled}
use realtime_ride_matching_e.Storage.Tables.{Assignment, with_ride_status}
use realtime_ride_matching_e.Lifecycle.{
  MayBecome, AssignsWhen, match_requested, cancel_requested, cancel_matched, cancel_in_progress,
  complete_matched, complete_in_progress,
}
use realtime_ride_matching_e.Workers.Versions.{Moves, created, moved}

-- A row after any number of changes.
pub data Evolves (o : Option Ride) : Option Ride → Type 0 where
  unchanged : Evolves o o
  then_moves : {p : Option Ride} {r : Ride} → Evolves o p → Moves p r → Evolves o (some r)

pub Evolves-trans : {o p q : Option Ride} → Evolves o p → Evolves p q → Evolves o q
Evolves-trans e unchanged = e
Evolves-trans e (then_moves f m) = then_moves (Evolves-trans e f) m

-- Statuses that a ride can reach.
pub data Reaches (s : RideStatus) : RideStatus → Type 0 where
  stays_at : Reaches s s
  then_becomes : {t u : RideStatus} → Reaches s t → MayBecome t u → Reaches s u

abbrev pub IsOver : RideStatus → Type 0
IsOver completed = Unit
IsOver cancelled = Unit
IsOver _ = ⊥

-- A ride and what has become of it: it is for the same rider, place and key, its status has moved
-- along the life cycle, the driver of a ride that was matched is the same, and a ride that was over
-- is unchanged.
pub record Lasts (r r' : Ride) : Type 0 where
  pub same_id : r'.id ≡ r.id
  pub same_rider : r'.rider_id ≡ r.rider_id
  pub same_key : r'.idempotency_key ≡ r.idempotency_key
  pub same_lat : r'.pickup_lat ≡ r.pickup_lat
  pub same_lng : r'.pickup_lng ≡ r.pickup_lng
  pub same_zone : r'.zone_id ≡ r.zone_id
  pub same_price : r'.surge_multiplier ≡ r.surge_multiplier
  pub same_fare : r'.fare ≡ r.fare
  pub same_start : r'.created_at ≡ r.created_at
  pub reaches : Reaches r.status r'.status
  pub same_driver : r.status ≢ requested → r'.driver_id ≡ r.driver_id
  pub over : IsOver r.status → r' ≡ r

-- No move leaves the end of the life, and a driver is assigned in the move from `requested` only.
not-IsOver : {s t : RideStatus} → MayBecome s t → ¬ (IsOver s)
not-IsOver match_requested o = o
not-IsOver cancel_requested o = o
not-IsOver cancel_matched o = o
not-IsOver cancel_in_progress o = o
not-IsOver complete_matched o = o
not-IsOver complete_in_progress o = o

assigns_once :
    {s t : RideStatus} (extra : Option Assignment)
    → MayBecome s t
    → AssignsWhen t extra
    → (s ≡ requested) ⊎ (extra ≡ none)
assigns_once extra match_requested a = inl refl
assigns_once extra cancel_requested a = inl refl
assigns_once none _ a = inr refl
assigns_once (some x) cancel_matched a = absurd a
assigns_once (some x) cancel_in_progress a = absurd a
assigns_once (some x) complete_matched a = absurd a
assigns_once (some x) complete_in_progress a = absurd a

-- `requested` is where no move leads to.
not_back : {s t : RideStatus} → MayBecome s t → t ≢ requested
not_back match_requested e = cc
not_back cancel_requested e = cc
not_back cancel_matched e = cc
not_back cancel_in_progress e = cc
not_back complete_matched e = cc
not_back complete_in_progress e = cc

stays_over : {s t : RideStatus} → IsOver s → Reaches s t → t ≡ s
stays_over o stays_at = refl
stays_over o (then_becomes p m) = absurd (not-IsOver m (subst IsOver (sym (stays_over o p)) o))

never_back : {s t : RideStatus} → s ≢ requested → Reaches s t → t ≢ requested
never_back n stays_at e = n e
never_back n (then_becomes p m) e = not_back m e

Lasts-moved :
    (r q : Ride) (to : RideStatus) (extra : Option Assignment) (at : ℕ)
    → MayBecome q.status to
    → AssignsWhen to extra
    → Lasts r q
    → Lasts r (with_ride_status to extra at q)
Lasts-moved r q to none at m a l = record {
  same_id = l.same_id;
  same_rider = l.same_rider;
  same_key = l.same_key;
  same_lat = l.same_lat;
  same_lng = l.same_lng;
  same_zone = l.same_zone;
  same_price = l.same_price;
  same_fare = l.same_fare;
  same_start = l.same_start;
  reaches = then_becomes l.reaches m;
  same_driver = l.same_driver;
  over = λ o. absurd (not-IsOver m (subst IsOver (sym (stays_over o l.reaches)) o));
}
Lasts-moved r q to (some x) at m a l = record {
  same_id = l.same_id;
  same_rider = l.same_rider;
  same_key = l.same_key;
  same_lat = l.same_lat;
  same_lng = l.same_lng;
  same_zone = l.same_zone;
  same_price = l.same_price;
  same_fare = l.same_fare;
  same_start = l.same_start;
  reaches = then_becomes l.reaches m;
  same_driver = λ n. elim (assigns_once (some x) m a) [
    | inl e ↦ absurd (never_back n l.reaches e)
    | inr e ↦ cc
  ];
  over = λ o. absurd (not-IsOver m (subst IsOver (sym (stays_over o l.reaches)) o));
}

pub Lasts-refl : (r : Ride) → Lasts r r
Lasts-refl r = record {
  same_id = refl;
  same_rider = refl;
  same_key = refl;
  same_lat = refl;
  same_lng = refl;
  same_zone = refl;
  same_price = refl;
  same_fare = refl;
  same_start = refl;
  reaches = stays_at;
  same_driver = λ _. refl;
  over = λ _. refl;
}

-- A row that is there stays there, and lasts.
Survives : Ride → Option Ride → Type 0
Survives r none = ⊥
Survives r (some q) = Lasts r q

Survives-moves :
    {p : Option Ride} {q : Ride} (r : Ride) → Moves p q → Survives r p → Survives r (some q)
unfolding Survives
Survives-moves r (created q st dr) h = absurd h
Survives-moves r (moved q to extra at m a) h = Lasts-moved r q to extra at m a h

Survives-Evolves : {o p : Option Ride} (r : Ride) → Evolves o p → Survives r o → Survives r p
Survives-Evolves r unchanged h = h
Survives-Evolves r (then_moves e m) h = Survives-moves r m (Survives-Evolves r e h)

pub Lasts-Evolves :
    {o p : Option Ride} (r : Ride)
    → Evolves o p
    → o ≡ some r
    → (r' : Ride) × (p ≡ some r') × Lasts r r'
unfolding Survives
Lasts-Evolves {o} {p} r e h =
    go p (Survives-Evolves r e (subst (Survives r) (sym h) (Lasts-refl r)))
  where
    go : (p : Option Ride) → Survives r p → (r' : Ride) × (p ≡ some r') × Lasts r r'
    go none s = absurd s
    go (some q) s = (q, refl, s)
