-- ===== src/Workers/Rows.antt =====
-- One row through the statements of a transaction.
use realtime_ride_matching_e.Prelude.{
  ◌≢◌, Bool-cases, inl, inr, ℕ, ◌≡◌, refl, ◌∙◌, Bool, false, ◌||◌, Option, none, some, List, [],
  ◌∷◌, ◌++◌, ◌==◌, if◌then◌else◌, arith, find_by, find_by-modify_by,
}
use realtime_ride_matching_e.Models.{Ride, RideStatus}
use realtime_ride_matching_e.Storage.Tables.{
  Tables, Write, Assignment, insert_driver, insert_rider, insert_ride, set_driver_status,
  set_driver_location, set_ride_status, apply, replay, find_ride, ride_id_of, with_ride_status,
}
use realtime_ride_matching_e.Storage.Constraints.{violates_unique, id_taken, clashes}
use realtime_ride_matching_e.Workers.{touches}

-- What one write makes of the row.
row_step : Write → ℕ → Option Ride → Option Ride
row_step (insert_ride r) id none = if r.id == id then some r else none
row_step (insert_ride r) id (some q) = some q
row_step (set_ride_status k st a at) id none = none
row_step (set_ride_status k st a at) id (some q) =
    if k == id then some (with_ride_status st a at q) else some q
row_step _ id o = o

pub row_after : List Write → ℕ → Option Ride → Option Ride
row_after [] id o = o
row_after (x ∷ ws) id o = row_after ws id (row_step x id o)

find_by-snoc :
    (id : ℕ) (r : Ride) (rs : List Ride)
    → find_by ride_id_of id (rs ++ r ∷ []) ≡ row_step (insert_ride r) id (find_by ride_id_of id rs)
unfolding row_step
find_by-snoc id r [] = refl
find_by-snoc id r (q ∷ rs) = ground (arith, find_by-snoc id r rs)

pub id-with_status :
    (st : RideStatus) (a : Option Assignment) (at : ℕ) (r : Ride)
    → (with_ride_status st a at r).id ≡ r.id
id-with_status st none at r = refl
id-with_status st (some a) at r = refl

find_ride-apply :
    (x : Write) (id : ℕ) (t : Tables) → find_ride (apply t x) id ≡ row_step x id (find_ride t id)
unfolding row_step
find_ride-apply (insert_ride r) id t = find_by-snoc id r t.rides
find_ride-apply (set_ride_status k st a at) id t = ground (
  arith,
  find_by-modify_by ride_id_of k id (with_ride_status st a at) t.rides (id-with_status st a at),
)
find_ride-apply (insert_driver d) id t = refl
find_ride-apply (insert_rider d) id t = refl
find_ride-apply (set_driver_status k st at) id t = refl
find_ride-apply (set_driver_location k lat lng c z at) id t = refl

-- The row that a transaction sees depends on the same row before it, and on no other.
pub find_ride-replay :
    (ws : List Write) (id : ℕ) (t : Tables)
    → find_ride (replay ws t) id ≡ row_after ws id (find_ride t id)
unfolding row_after
find_ride-replay [] id t = refl
find_ride-replay (x ∷ ws) id t =
    find_ride-replay ws id (apply t x) ∙ (rw (find_ride-apply x id t) refl)

row_step-untouched :
    (x : Write) (id : ℕ) (o : Option Ride) → touches id (x ∷ []) ≡ false → row_step x id o ≡ o
unfolding row_step
row_step-untouched (insert_ride r) id none h = ground (arith, h)
row_step-untouched (insert_ride r) id (some q) h = refl
row_step-untouched (set_ride_status k st a at) id none h = refl
row_step-untouched (set_ride_status k st a at) id (some q) h = ground (arith, h)
row_step-untouched (insert_driver d) id o h = refl
row_step-untouched (insert_rider d) id o h = refl
row_step-untouched (set_driver_status k st at) id o h = refl
row_step-untouched (set_driver_location k lat lng c z at) id o h = refl

touches-cons :
    (x : Write) (id : ℕ) (ws : List Write)
    → touches id (x ∷ ws) ≡ (touches id (x ∷ []) || touches id ws)
touches-cons (insert_ride r) id ws = ground arith
touches-cons (set_ride_status k st a at) id ws = ground arith
touches-cons (insert_driver d) id ws = refl
touches-cons (insert_rider d) id ws = refl
touches-cons (set_driver_status k st at) id ws = refl
touches-cons (set_driver_location k lat lng c z at) id ws = refl

pub touches-append :
    (ws vs : List Write) (id : ℕ) → touches id (ws ++ vs) ≡ (touches id ws || touches id vs)
touches-append [] vs id = refl
touches-append (x ∷ ws) vs id =
    ground (arith, touches-cons x id (ws ++ vs), touches-cons x id ws, touches-append ws vs id)

pub row_after-untouched :
    (ws : List Write) (id : ℕ) (o : Option Ride) → touches id ws ≡ false → row_after ws id o ≡ o
unfolding row_after
row_after-untouched [] id o h = refl
row_after-untouched (x ∷ ws) id o h =
    let hx : touches id (x ∷ []) ≡ false = ground (arith, touches-cons x id ws, h) in
    let hs : touches id ws ≡ false = ground (arith, touches-cons x id ws, h) in
    rw (row_step-untouched x id o hx) (row_after-untouched ws id o hs)

-- Rows are never deleted.
row_step-some : (x : Write) (id : ℕ) (q : Ride) → row_step x id (some q) ≢ none
unfolding row_step
row_step-some (insert_ride r) id q e = cc
row_step-some (set_ride_status k st a at) id q e = ground (arith, e)
row_step-some (insert_driver d) id q e = cc
row_step-some (insert_rider d) id q e = cc
row_step-some (set_driver_status k st at) id q e = cc
row_step-some (set_driver_location k lat lng c z at) id q e = cc

pub row_after-none :
    (ws : List Write) (id : ℕ) (o : Option Ride) → row_after ws id o ≡ none → o ≡ none
unfolding row_after
row_after-none [] id o h = h
row_after-none (x ∷ ws) id none h = refl
row_after-none (x ∷ ws) id (some q) h =
    absurd (row_step-some x id q (row_after-none ws id (row_step x id (some q)) h))

or_false : (a b : Bool) → (a || b) ≡ false → (a ≡ false) × (b ≡ false)
or_false a b h = ground arith

some-injective : {r q : Ride} → some r ≡ some q → r ≡ q
some-injective h = cc

-- What a check of all rows says of one of them.
pub clashes-of_check :
    (new q : Ride) (b : ℕ) (rs : List Ride)
    → violates_unique rs new ≡ false
    → find_by ride_id_of b rs ≡ some q
    → clashes new q ≡ false
unfolding violates_unique
clashes-of_check new q b [] v found = cc
clashes-of_check new q b (r ∷ rs) v found = elim (Bool-cases (r.id == b)) [
  | inl e ↦
      let same : r ≡ q = some-injective (rw e at found) in
      rw (← same) (or_false (clashes new r) _ v).0
  | inr e ↦ clashes-of_check new q b rs (or_false (clashes new r) _ v).1 (rw e at found)
]

pub find-of_free_id :
    (new : Ride) (rs : List Ride) → id_taken rs new ≡ false → find_by ride_id_of new.id rs ≡ none
unfolding id_taken
find-of_free_id new [] h = refl
find-of_free_id new (r ∷ rs) h = ground (arith, h, find-of_free_id new rs)

pub row_after-append :
    (ws vs : List Write) (id : ℕ) (o : Option Ride)
    → row_after (ws ++ vs) id o ≡ row_after vs id (row_after ws id o)
unfolding row_after
row_after-append [] vs id o = refl
row_after-append (x ∷ ws) vs id o = row_after-append ws vs id (row_step x id o)

-- The last write of a transaction.
pub row_after-insert :
    (r : Ride) (id : ℕ) (o : Option Ride)
    → o ≡ none
    → row_after (insert_ride r ∷ []) id o ≡ (if r.id == id then some r else none)
unfolding row_after row_step
row_after-insert r id o h = rw h

pub row_after-update :
    (k : ℕ) (st : RideStatus) (a : Option Assignment) (at id : ℕ) (q : Ride)
    → row_after (set_ride_status k st a at ∷ []) id (some q)
      ≡ (if k == id then some (with_ride_status st a at q) else some q)
unfolding row_after row_step
row_after-update k st a at id q = refl
