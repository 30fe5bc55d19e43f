-- ===== src/Redis.antt =====
-- Redis as app/redis/lock.py uses it: keys that expire, SET NX PX, and the compare-and-delete script.
-- The key of a driver's lock, `lock:driver:{id}`, is named by the driver's id.
pub mod Laws
use realtime_ride_matching_e.Prelude.{
  ℕ, ◌+◌, Bool, true, false, not, ◌&&◌, Option, none, some, List, [], ◌∷◌, if◌then◌else◌, ltb, ◌==◌,
  select,
}

pub record Lock : Type 0 where
  pub key : ℕ
  pub token : ℕ
  pub expires_at : ℕ

-- A key is there until its time is over.
abbrev pub is_live : ℕ → Lock → Bool
is_live clock l = ltb clock l.expires_at

-- GET key
unfoldable pub holder : ℕ → ℕ → List Lock → Option ℕ
holder clock key [] = none
holder clock key (l ∷ ls) =
    if l.key == key then (if is_live clock l then some l.token else none) else holder clock key ls

unfoldable pub without : ℕ → List Lock → List Lock
without key = select (λ l. not (l.key == key))

-- SET key token NX PX ttl
unfoldable pub set_nx_px : ℕ → ℕ → ℕ → ℕ → List Lock → Bool × List Lock
set_nx_px clock key token ttl_ms locks = elim (holder clock key locks) [
  | none ↦
      (true, record { key = key; token = token; expires_at = clock + ttl_ms } ∷ without key locks)
  | some other ↦ (false, locks)
]

-- if get(key) == token then del(key) else 0
unfoldable pub compare_and_delete : ℕ → ℕ → ℕ → List Lock → Bool × List Lock
compare_and_delete clock key token locks = elim (holder clock key locks) [
  | none ↦ (false, locks)
  | some held ↦ if held == token then (true, without key locks) else (false, locks)
]
