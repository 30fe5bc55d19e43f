-- ===== src/Storage/Uniqueness.antt =====
-- The rows of `rides` seen through the constraints: any two have different ids and keys, and are
-- not both active for one driver.
use realtime_ride_matching_e.Prelude.{
  ℕ, ◌≡◌, refl, true, false, Option, none, some, List, [], ◌∷◌, ◌==◌, String, str_eq, All, find_by,
  arith, eq_iff, inl, inr, Bool-cases, ◌∙◌,
}
use realtime_ride_matching_e.Models.{Ride}
use realtime_ride_matching_e.Storage.Tables.{ride_id_of}
use realtime_ride_matching_e.Storage.Constraints.{same_driver, same_key, both_active, clashes}

pub record Compatible (r s : Ride) : Type 0 where
  pub ids : (r.id == s.id) ≡ false
  pub keys : same_key r.idempotency_key s.idempotency_key ≡ false
  pub drivers : both_active r s ≡ false

abbrev pub Unique : List Ride → Type 0
Unique [] = Unit
Unique (r ∷ rs) = All (Compatible r) rs × Unique rs

same_driver_comm : (a b : Option ℕ) → same_driver a b ≡ same_driver b a
same_driver_comm a b = ground arith

str_eq_comm : (a b : String) → str_eq a b ≡ str_eq b a
str_eq_comm a b = ground (arith, eq_iff a b, eq_iff b a)

same_key_comm : (a b : Option String) → same_key a b ≡ same_key b a
same_key_comm (some a) (some b) = str_eq_comm a b
same_key_comm (some a) none = refl
same_key_comm none (some b) = refl
same_key_comm none none = refl

pub Compatible-symm : {r s : Ride} → Compatible r s → Compatible s r
unfolding both_active
Compatible-symm {r} {s} c = record {
  ids = ground arith;
  keys = same_key_comm s.idempotency_key r.idempotency_key ∙ c.keys;
  drivers = ground (arith, same_driver_comm s.driver_id r.driver_id);
}

pub Compatible-of_clashes :
    (new r : Ride) → (r.id == new.id) ≡ false → clashes new r ≡ false → Compatible new r
unfolding clashes
Compatible-of_clashes new r i c = record {
  ids = ground arith;
  keys = ground arith;
  drivers = ground arith;
}

pub find_by_key :
    (id : ℕ) (new : Ride) (rs : List Ride)
    → find_by ride_id_of id rs ≡ some new
    → (new.id == id) ≡ true
find_by_key id new [] found = cc
find_by_key id new (r ∷ rs) found = elim (Bool-cases (r.id == id)) [
  | inl here ↦ ground (arith, found)
  | inr there ↦ find_by_key id new rs (ground (arith, found))
]
