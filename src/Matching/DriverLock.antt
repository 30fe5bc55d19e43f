-- ===== src/Matching/DriverLock.antt =====
-- app/redis/lock.py: acquire_lock and release_lock over one Redis.
use realtime_ride_matching_e.Prelude.{ℕ, Bool, Option, none, some, if◌then◌else◌}
use realtime_ride_matching_e.Program.Commands.{
  Prog, ret, call, lift, ◌>>=◌, uuid4, set_nx_px, compare_and_delete,
}

-- The token of the new lock, or `none` if another holds the key.
unfoldable pub acquire_lock : ℕ → ℕ → Prog (Option ℕ)
acquire_lock key ttl_ms = do
  token ← call uuid4
  reply ← call (set_nx_px key token ttl_ms)
  acquired ← lift reply
  ret (if acquired then some token else none)

-- Whether this call deleted the key.
unfoldable pub release_lock : ℕ → ℕ → Prog Bool
release_lock key token = do reply ← call (compare_and_delete key token); lift reply
