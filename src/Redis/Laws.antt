-- ===== src/Redis/Laws.antt =====
-- What the lock guarantees.
use realtime_ride_matching_e.Prelude.{
  ℕ, ◌+◌, ◌≤◌, ◌↔◌, ltb, ◌≡◌, true, false, none, some, List, [], ◌∷◌, if◌then◌else◌, ◌==◌, arith,
}
use realtime_ride_matching_e.Redis.{Lock, holder, without, set_nx_px, compare_and_delete}

pub holder-without :
    (clock key k : ℕ) (locks : List Lock)
    → holder clock k (without key locks) ≡ (if key == k then none else holder clock k locks)
unfolding holder without
holder-without clock key k [] = ground arith
holder-without clock key k (l ∷ ls) = ground (arith, holder-without clock key k ls)

-- What is held later was held before, and by the same token.
pub holder_mono :
    (c c' key t : ℕ) (locks : List Lock)
    → c ≤ c'
    → holder c' key locks ≡ some t
    → holder c key locks ≡ some t
unfolding holder
holder_mono c c' key t [] h e = e
holder_mono c c' key t (l ∷ ls) h e = ground (arith, holder_mono c c' key t ls h)

-- Two callers never both get one key: the second is refused until the time to live is over or the
-- first gives the key back, and an expired key is free again.
pub set_nx_px_excludes :
    (clock later key token other ttl ttl' : ℕ) (locks : List Lock)
    → (set_nx_px clock key token ttl locks).0 ≡ true
    → clock ≤ later
    → (set_nx_px later key other ttl' (set_nx_px clock key token ttl locks).1).0
      ≡ (if ltb later (clock + ttl) then false else true)
unfolding set_nx_px holder
set_nx_px_excludes clock later key token other ttl ttl' locks h le = ground arith

-- A release deletes the key exactly if it is held by this very token, and changes no other key.
pub compare_and_delete_lem :
    (clock key token k : ℕ) (locks : List Lock)
    → (holder clock k (compare_and_delete clock key token locks).1 ≡ (
        if key == k
        then (if (compare_and_delete clock key token locks).0 then none else holder clock k locks)
        else holder clock k locks))
      × (((compare_and_delete clock key token locks).0 ≡ true)
          ↔ (holder clock key locks ≡ some token))
unfolding compare_and_delete
compare_and_delete_lem clock key token k locks =
    (ground (arith, holder-without clock key k locks), ground arith)

without-cons :
    (key token expires_at : ℕ) (locks : List Lock)
    → without key (record { key = key; token = token; expires_at = expires_at } ∷ locks)
      ≡ without key locks
unfolding without
without-cons key token expires_at locks = ground arith

-- A lock that was taken and given back adds no holder to those from before.
pub released_held :
    (c c' key token expires_at k t : ℕ) (locks : List Lock)
    → c ≤ c'
    → holder c' k
        (compare_and_delete c' key token
          (record { key = key; token = token; expires_at = expires_at } ∷ without key locks)).1
      ≡ some t
    → holder c k locks ≡ some t
unfolding compare_and_delete holder
released_held c c' key token expires_at k t locks le h = ground (
  arith,
  holder-without c' key k (without key locks),
  holder-without c' key k locks,
  holder_mono c c' k t locks le,
  without-cons key token expires_at (without key locks),
)
