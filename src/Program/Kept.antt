-- ===== src/Program/Kept.antt =====
-- Facts about accepted rows and lists of writes.
use realtime_ride_matching_e.Prelude.{◌≡◌, true, false, List, [], ◌∷◌, ◌++◌, All, arith}
use realtime_ride_matching_e.Models.{Ride}
use realtime_ride_matching_e.Storage.Tables.{Tables}
use realtime_ride_matching_e.Storage.Constraints.{violates_unique, id_taken, accepts_insert}

pub All-append {ℓ κ} :
    {A : Type ℓ} (P : A → Type κ) (xs ys : List A) → All P xs → All P ys → All P (xs ++ ys)
All-append P [] ys hx hy = hy
All-append P (x ∷ xs) ys hx hy = (hx.0, All-append P xs ys hx.1 hy)

pub accepts_id : (t : Tables) (r : Ride) → accepts_insert t r ≡ true → id_taken t.rides r ≡ false
accepts_id t r e = unfold accepts_insert in ground (arith, e)

pub accepts_unique :
    (t : Tables) (r : Ride) → accepts_insert t r ≡ true → violates_unique t.rides r ≡ false
accepts_unique t r e = unfold accepts_insert in ground (arith, e)
