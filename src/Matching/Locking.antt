-- ===== src/Matching/Locking.antt =====
-- What acquire_lock and release_lock do on a platform whose Redis answers.
use realtime_ride_matching_e.Prelude.{
  ◌<◌, ◌↔◌, Bool, ◌==◌, if◌then◌else◌, ap, true, false, ℕ, ◌+◌, ◌≡◌, refl, ◌∙◌, Option, none, some,
  ◌∷◌, inl, inr, arith, Option-cases,
}
use realtime_ride_matching_e.Redis
use realtime_ride_matching_e.Redis.{Lock, holder, without}
use realtime_ride_matching_e.Redis.Laws.{compare_and_delete_lem}
use realtime_ride_matching_e.Program.State.{World}
use realtime_ride_matching_e.Program.Commands.{
  set_nx_px, compare_and_delete, uuid4, Result, ok, err, Prog, ret, ◌>>=◌,
}
use realtime_ride_matching_e.Program.Exec.{Platform, exec, run}
use realtime_ride_matching_e.Program.Effects.{effect, called, with_locks}
use realtime_ride_matching_e.Program.Answers.{uuid4_any}
use realtime_ride_matching_e.Program.Laws.{run_laws}
use realtime_ride_matching_e.Matching.DriverLock.{acquire_lock, release_lock}

-- Redis carries out what it is asked, and replies.
pub record Answers ⦃p : Platform⦄ : Type 0 where
  pub to_set :
      (key token ttl : ℕ) (w : World)
      → exec (set_nx_px key token ttl) w ≡ effect (set_nx_px key token ttl) w
  pub to_delete :
      (key token : ℕ) (w : World)
      → exec (compare_and_delete key token) w ≡ effect (compare_and_delete key token) w

abbrev pub give_back : ℕ → ℕ → Prog (Unit {0})
give_back key token = release_lock key token >>= λ _. ret tt

-- The world after a new token, and after the SET NX PX that was granted.
abbrev pub counted : World → World
counted w = record w { shared = called w.shared }

abbrev pub granted : ℕ → ℕ → ℕ → World → World
granted key ttl token w = with_locks (counted w) (
    record { key = key; token = token; expires_at = w.shared.clock + ttl }
    ∷ without key w.shared.locks)

-- A key that was granted is held until its time is over.
granted_held :
    (key ttl token later : ℕ) (w : World)
    → later < w.shared.clock + ttl
    → holder later key (granted key ttl token w).shared.locks ≡ some token
unfolding holder
granted_held key ttl token later w soon = ground arith

abbrev pub is_success : Result Bool → Bool
is_success (ok b) = b
is_success (err e) = false

module _ ⦃p : Platform⦄ (answers : Answers) where
  pub set_granted :
      (key ttl token : ℕ) (w : World)
      → holder w.shared.clock key w.shared.locks ≡ none
      → exec (set_nx_px key token ttl) (counted w) ≡ (ok true, granted key ttl token w)
  unfolding effect Redis.set_nx_px
  set_granted key ttl token w free =
      answers.to_set key token ttl (counted w) ∙ rw (free, Redis.set_nx_px) refl

  pub set_refused :
      (key ttl token other : ℕ) (w : World)
      → holder w.shared.clock key w.shared.locks ≡ some other
      → exec (set_nx_px key token ttl) (counted w)
        ≡ (ok false, with_locks (counted w) w.shared.locks)
  unfolding effect Redis.set_nx_px
  set_refused key ttl token other w taken =
      answers.to_set key token ttl (counted w) ∙ rw (taken, Redis.set_nx_px) refl

  pub acquire_granted :
      (key ttl token : ℕ) (w : World)
      → exec uuid4 w ≡ (token, counted w)
      → holder w.shared.clock key w.shared.locks ≡ none
      → run (acquire_lock key ttl) w ≡ (ok (some token), granted key ttl token w)
  unfolding acquire_lock run ◌>>=◌
  acquire_granted key ttl token w e free =
      rw (e, run) (rw (set_granted key ttl token w free, run) refl)

  pub acquire_refused :
      (key ttl token other : ℕ) (w : World)
      → exec uuid4 w ≡ (token, counted w)
      → holder w.shared.clock key w.shared.locks ≡ some other
      → run (acquire_lock key ttl) w ≡ (ok none, with_locks (counted w) w.shared.locks)
  unfolding acquire_lock run ◌>>=◌
  acquire_refused key ttl token other w e taken =
      rw (e, run) (rw (set_refused key ttl token other w taken, run) refl)

  pub release_world :
      (key token : ℕ) (w : World)
      → (run (give_back key token) w).1
        ≡ with_locks w (Redis.compare_and_delete w.shared.clock key token w.shared.locks).1
  unfolding release_lock effect
  release_world key token w = simp (run_laws, answers.to_delete key token w) refl

  -- While Redis answers and one worker holds a key whose time is not over, nobody else gets it: before
  -- that time, in any world with the keys that the first acquisition left, a second one is refused.
  pub acquire_lock_excludes :
      (key ttl ttl' token : ℕ) (w w' : World)
      → (run (acquire_lock key ttl) w).0 ≡ ok (some token)
      → w'.shared.locks ≡ (run (acquire_lock key ttl) w).1.shared.locks
      → w'.shared.clock < w.shared.clock + ttl
      → (run (acquire_lock key ttl') w').0 ≡ ok none
  acquire_lock_excludes key ttl ttl' token w w' got same soon =
      let (t, e) = uuid4_any w in
      let (t', e') = uuid4_any w' in
      elim (Option-cases (holder w.shared.clock key w.shared.locks)) [
        | inl free ↦
            let held : holder w'.shared.clock key w'.shared.locks ≡ some t =
              rw (same, acquire_granted key ttl t w e free)
                (granted_held key ttl t w'.shared.clock w soon) in
            ap (λ (r : Result (Option ℕ) × World). r.0) (acquire_refused key ttl' t' t w' e' held)
        | inr (other, taken) ↦ absurd (cc (got, acquire_refused key ttl t other w e taken))
      ]

  pub release_reply :
      (key token : ℕ) (w : World)
      → run (release_lock key token) w ≡ (
        ok (Redis.compare_and_delete w.shared.clock key token w.shared.locks).0,
        with_locks w (Redis.compare_and_delete w.shared.clock key token w.shared.locks).1,
      )
  unfolding release_lock run ◌>>=◌ effect
  release_reply key token w = rw (answers.to_delete key token w, run) refl

  -- While Redis answers, a release reports success exactly if the key was held by this very token; then the key is free, and
  -- else nothing changes. No other key changes in either case.
  pub release_lock_lem :
      (key token k : ℕ) (w : World)
      → (holder w.shared.clock k (run (release_lock key token) w).1.shared.locks ≡ (
          if key == k
          then (if is_success (run (release_lock key token) w).0
              then none
              else holder w.shared.clock k w.shared.locks)
          else holder w.shared.clock k w.shared.locks))
        × ((is_success (run (release_lock key token) w).0 ≡ true)
            ↔ (holder w.shared.clock key w.shared.locks ≡ some token))
  release_lock_lem key token k w =
      rw (release_reply key token w)
        (compare_and_delete_lem w.shared.clock key token k w.shared.locks)
