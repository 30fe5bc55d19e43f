-- ===== src/Storage/Constraints.antt =====
-- The constraints of `rides`, which PostgreSQL checks at each INSERT and UPDATE statement: the
-- partial unique index ux_rides_one_active_ride_per_driver, the unique constraint
-- uq_rides_idempotency_key and the foreign key on rider_id.
use realtime_ride_matching_e.Prelude.{
  ℕ, Bool, false, not, ◌&&◌, ◌||◌, Option, some, List, any, ◌==◌, String, str_eq,
}
use realtime_ride_matching_e.Models.{Ride, Rider, is_active}
use realtime_ride_matching_e.Storage.Tables.{Tables}

abbrev pub same_driver : Option ℕ → Option ℕ → Bool
same_driver (some a) (some b) = a == b
same_driver _ _ = false

abbrev pub same_key : Option String → Option String → Bool
same_key (some a) (some b) = str_eq a b
same_key _ _ = false

-- Two rows that the partial index does not let stand together.
unfoldable pub both_active : Ride → Ride → Bool
both_active r s = is_active r.status && is_active s.status && same_driver r.driver_id s.driver_id

-- The new version of a row against one other row.
unfoldable pub clashes : Ride → Ride → Bool
unfolding both_active
clashes new r =
    not (r.id == new.id) && (both_active new r || same_key new.idempotency_key r.idempotency_key)

unfoldable pub violates_unique : List Ride → Ride → Bool
unfolding clashes
violates_unique rides new = any (clashes new) rides

-- The primary key.
unfoldable pub id_taken : List Ride → Ride → Bool
id_taken rides new = any (λ r. r.id == new.id) rides

unfoldable pub rider_exists : List Rider → ℕ → Bool
rider_exists riders id = any (λ r. r.id == id) riders

-- What an INSERT into `rides` needs.
unfoldable pub accepts_insert : Tables → Ride → Bool
unfolding rider_exists id_taken violates_unique
accepts_insert t new =
    rider_exists t.riders new.rider_id && not (id_taken t.rides new || violates_unique t.rides new)
