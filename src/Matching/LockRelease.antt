-- ===== src/Matching/LockRelease.antt =====
-- However match_ride ends, it leaves no lock of its own behind.
use realtime_ride_matching_e.Prelude.{
  ℕ, ◌+◌, ◌≤◌, ◌≡◌, refl, subst, ◌∙◌, not, Option, none, some, List, [], ◌∷◌, inl, inr, arith,
  case_option, Bool-cases, Option-cases, length,
}
use realtime_ride_matching_e.Config.{Env}
use realtime_ride_matching_e.Models.{Ride, requested, ride_status_eq}
use realtime_ride_matching_e.Redis
use realtime_ride_matching_e.Redis.{Lock, holder, without}
use realtime_ride_matching_e.Redis.Laws.{holder_mono, released_held}
use realtime_ride_matching_e.Observability.Events.{
  Event, lock_acquired, lock_failed, candidates_found,
}
use realtime_ride_matching_e.Program.State.{World}
use realtime_ride_matching_e.Program.Commands.{
  Result, ok, err, value_error, Prog, ret, raise, call, ◌>>=◌, finally, attempt, emit,
  record_lock_contention,
}
use realtime_ride_matching_e.Program.Exec.{Platform, run}
use realtime_ride_matching_e.Program.Effects.{with_locks}
use realtime_ride_matching_e.Program.Answers.{uuid4_any}
use realtime_ride_matching_e.Program.Laws.{
  run-bind, run-finally, run-attempt, then_run, after_cleanup,
}
use realtime_ride_matching_e.Program.Issues.{issues_rules}
use realtime_ride_matching_e.Program.LockFree.{SameLocks, run-SameLocks}
use realtime_ride_matching_e.Matching.LockFree.{
  IsLockFreeProg, find_ranked_candidates-IsLockFree, assign_candidate-IsLockFree,
}
use realtime_ride_matching_e.Matching.Ranking.{Candidate}
use realtime_ride_matching_e.Matching.DriverLock.{acquire_lock}
use realtime_ride_matching_e.Matching.Matcher.{
  lock_key, translate_lock_error, assign_candidate, try_candidates, match_ride,
}
use realtime_ride_matching_e.Matching.Locking.{
  Answers, give_back, counted, granted, acquire_granted, acquire_refused, release_world,
}

-- What is held at the end was held at the start, by the same token.
pub record KeepsLocks (w w' : World) : Type 0 where
  pub clock : w.shared.clock ≤ w'.shared.clock
  pub held :
      (key token : ℕ)
      → holder w'.shared.clock key w'.shared.locks ≡ some token
      → holder w.shared.clock key w.shared.locks ≡ some token

KeepsLocks-trans : {u v w : World} → KeepsLocks u v → KeepsLocks v w → KeepsLocks u w
KeepsLocks-trans a b = record { clock = omega arith; held = λ k t h. a.held k t (b.held k t h) }

KeepsLocks-of_same : {w w' : World} → SameLocks w w' → KeepsLocks w w'
KeepsLocks-of_same {w} {w'} s = record {
  clock = s.clock;
  held = λ k t h.
      holder_mono w.shared.clock w'.shared.clock k t w.shared.locks s.clock
        (subst (λ l. holder w'.shared.clock k l ≡ some t) s.locks h);
}

world-after_cleanup :
    {A : Type 0} (r : Result A) (p : Result (Unit {0}) × World) → (after_cleanup r p).1 ≡ p.1
world-after_cleanup r (ok u, w) = refl
world-after_cleanup r (err e, w) = refl

abbrev claim : ℕ → ℕ → Prog (Option ℕ)
claim key ttl = attempt (acquire_lock key ttl) translate_lock_error

-- The program restores the locks, from any world.
record Restores ⦃p : Platform⦄ {A : Type 0} (m : Prog A) : Type 0 where
  from_any : (w : World) → KeepsLocks w (run m w).1

module _ ⦃p : Platform⦄ where
  Restores-of_lock_free : {A : Type 0} (m : Prog A) → IsLockFreeProg m → Restores m
  Restores-of_lock_free m h = record { from_any = λ w. KeepsLocks-of_same (run-SameLocks m w h) }

  then_run-KeepsLocks :
      {A B : Type 0} (w : World) (p : Result A × World) (f : A → Prog B)
      → KeepsLocks w p.1
      → ((a : A) → Restores (f a))
      → KeepsLocks w (then_run p f).1
  then_run-KeepsLocks w (ok a, w') f h hf = KeepsLocks-trans h ((hf a).from_any w')
  then_run-KeepsLocks w (err e, w') f h hf = h

  Restores-bind :
      {A B : Type 0} (m : Prog A) (f : A → Prog B)
      → Restores m
      → ((a : A) → Restores (f a))
      → Restores (m >>= f)
  Restores-bind m f hm hf = record {
    from_any = λ w. rw (run-bind m f w) (then_run-KeepsLocks w (run m w) f (hm.from_any w) hf);
  }

  Restores-option :
      {A B : Type 0} (o : Option A) (m : Prog B) (f : A → Prog B)
      → Restores m
      → ((a : A) → Restores (f a))
      → Restores (case_option o m f)
  Restores-option none m f hm hf = hm
  Restores-option (some a) m f hm hf = hf a

  Restores-ret : {A : Type 0} (a : A) → Restores (ret a)
  Restores-ret a = Restores-of_lock_free (ret a) (search issues_rules)

module _ ⦃p : Platform⦄ (answers : Answers) where
  -- The locked part, from a world that is like the one after the lock was granted.
  finally-KeepsLocks :
      {A : Type 0} (body : Prog A) (key ttl token : ℕ) (w w' : World)
      → IsLockFreeProg body
      → SameLocks (granted key ttl token w) w'
      → KeepsLocks w (run (finally body (give_back key token)) w').1
  finally-KeepsLocks body key ttl token w w' free s =
      let w'' = (run body w').1 in
      let s' = run-SameLocks body w' free in
      rw
        (
          run-finally body (give_back key token) w',
          world-after_cleanup (run body w').0 (run (give_back key token) w''),
          release_world answers key token w'',
        )
        (record {
          clock = omega arith;
          held = λ k t h.
              released_held w.shared.clock w''.shared.clock key token (w.shared.clock + ttl) k t
                w.shared.locks (omega arith)
                (subst
                  (λ l.
                    holder w''.shared.clock k
                      (Redis.compare_and_delete w''.shared.clock key token l).1
                    ≡ some t)
                  (s'.locks ∙ s.locks) h);
        })

  -- An attempt to take the lock, and what follows in either case.
  Restores-claim :
      {A : Type 0} (key ttl : ℕ) (refused_part : Prog A) (locked_part : ℕ → Prog A)
      → Restores refused_part
      → ((token : ℕ) (w : World)
          → KeepsLocks w (run (locked_part token) (granted key ttl token w)).1)
      → Restores (claim key ttl >>= λ claimed. case_option claimed refused_part locked_part)
  unfolding run
  Restores-claim key ttl refused_part locked_part hr hl = record {
    from_any = λ w.
        let (token, e) = uuid4_any w in
        rw
          (
            run-bind (claim key ttl) (λ claimed. case_option claimed refused_part locked_part) w,
            run-attempt (acquire_lock key ttl) translate_lock_error w,
          )
          (elim (Option-cases (holder w.shared.clock key w.shared.locks)) [
            | inl free ↦ rw (acquire_granted answers key ttl token w e free) (hl token w)
            | inr (t, taken) ↦ rw (acquire_refused answers key ttl token t w e taken) (
                KeepsLocks-trans (KeepsLocks-of_same (record { locks = refl; clock = omega arith }))
                  (hr.from_any (with_locks (counted w) w.shared.locks)))
          ]);
  }

  -- The emit, the locked body and what follows its result.
  locked_part-KeepsLocks :
      {A B : Type 0} (e : Event) (body : Prog A) (key ttl token : ℕ) (next : A → Prog B) (w : World)
      → IsLockFreeProg body
      → ((a : A) → Restores (next a))
      → KeepsLocks w
          (run
            (call (emit e) >>= λ _. finally body (give_back key token) >>= next)
            (granted key ttl token w)).1
  unfolding run ◌>>=◌
  locked_part-KeepsLocks e body key ttl token next w free hn =
      let w' = (run (call (emit e)) (granted key ttl token w)).1 in
      rw (run-bind (finally body (give_back key token)) next w') (
        then_run-KeepsLocks w _ next
          (finally-KeepsLocks body key ttl token w w' free
            (run-SameLocks (call (emit e)) (granted key ttl token w) (search issues_rules)))
          hn)

  try_candidates-Restores :
      (env : Env) (ride : Ride) (cs : List Candidate) → Restores (try_candidates env ride cs)
  unfolding try_candidates
  try_candidates-Restores env ride [] =
      Restores-of_lock_free (try_candidates env ride []) (search issues_rules)
  try_candidates-Restores env ride (c ∷ cs) =
      let rest = try_candidates-Restores env ride cs in
      Restores-claim (lock_key c.driver.id) env.settings.lock_ttl_ms _ _
        (Restores-bind _ _
          (Restores-of_lock_free (call (emit (lock_failed ride.id c.driver.id)))
            (search issues_rules))
          (λ _.
            Restores-bind _ _
              (Restores-of_lock_free (call record_lock_contention) (search issues_rules))
              (λ _. rest)))
        (λ token w.
          locked_part-KeepsLocks (lock_acquired ride.id c.driver.id) (assign_candidate ride c)
            (lock_key c.driver.id) env.settings.lock_ttl_ms token _ w
            (assign_candidate-IsLockFree ride c)
            (λ assigned. Restores-option assigned _ ret rest Restores-ret))

  match_ride-Restores : (env : Env) (ride : Ride) → Restores (match_ride env ride)
  unfolding match_ride
  match_ride-Restores env ride = elim (Bool-cases (not (ride_status_eq ride.status requested))) [
    | inl e ↦ rw e (Restores-of_lock_free (raise value_error) (search issues_rules))
    | inr e ↦ rw e (
        Restores-bind _ _
          (Restores-of_lock_free _
            (find_ranked_candidates-IsLockFree env ride.pickup_lat ride.pickup_lng))
          (λ ranked.
            Restores-bind _ _
              (Restores-of_lock_free (call (emit (candidates_found ride.id (length ranked))))
                (search issues_rules))
              (λ _. try_candidates-Restores env ride ranked)))
  ]

-- While Redis answers, match_ride holds no lock when it is over, whether it returns or raises, and
-- whichever exception it was: every key that is held then was held before it, by the same token.
pub match_ride_releases :
    ⦃p : Platform⦄ (answers : Answers) (env : Env) (ride : Ride) (w : World) (key token : ℕ)
    → holder
        (run (match_ride env ride) w).1.shared.clock
        key
        (run (match_ride env ride) w).1.shared.locks
      ≡ some token
    → holder w.shared.clock key w.shared.locks ≡ some token
match_ride_releases answers env ride w key token =
    ((match_ride-Restores answers env ride).from_any w).held key token
