-- ===== src/Matching/Success.antt =====
-- When match_ride does match.
use realtime_ride_matching_e.Prelude.{
  ℕ, ◌≡◌, refl, true, false, Option, none, some, List, [], ◌∷◌, arith, case_option, find_by,
  find_by-modify_self, put_by,
}
use realtime_ride_matching_e.Config.{Env}
use realtime_ride_matching_e.Models.{
  Driver, available, busy, driver_status_eq, Ride, requested, matched,
}
use realtime_ride_matching_e.Storage.Tables.{
  Assignment, set_ride_status, driver_id_of, ride_id_of, with_ride_status, find_driver, find_ride,
}
use realtime_ride_matching_e.Storage.Constraints.{violates_unique}
use realtime_ride_matching_e.Redis
use realtime_ride_matching_e.Observability.Events.{lock_acquired}
use realtime_ride_matching_e.Redis.{holder}
use realtime_ride_matching_e.Matching.Locking.{
  Answers, give_back, counted, granted, acquire_granted, release_reply,
}
use realtime_ride_matching_e.Matching.DriverLock.{acquire_lock, release_lock}
use realtime_ride_matching_e.Program.State.{Shared, World}
use realtime_ride_matching_e.Program.Commands.{
  finally, attempt, uuid4, Result, ok, Prog, ret, ◌>>=◌, commit,
}
use realtime_ride_matching_e.Program.Exec.{Platform, exec, run}
use realtime_ride_matching_e.Program.Effects.{with_locks, add_write, at_clock, committed_world}
use realtime_ride_matching_e.Program.Rests.{resting}
use realtime_ride_matching_e.Program.Laws.{run_laws, run-bind, run-attempt, run-finally}
use realtime_ride_matching_e.Program.Cases.{find_by-put_by, assigned_world, published}
use realtime_ride_matching_e.Program.Answers.{
  update_written, get_driver_found, assign_loaded, refresh_found, now-later, emit_lem, uuid4_any,
}
use realtime_ride_matching_e.Repositories.Drivers
use realtime_ride_matching_e.Repositories.Rides
use realtime_ride_matching_e.Matching.Ranking.{Candidate}
use realtime_ride_matching_e.Matching.Matcher.{
  lock_key, try_candidates, translate_lock_error, settle, take_driver, assign_candidate,
}

-- Every commit goes through.
pub record Commits ⦃p : Platform⦄ : Type 0 where
  pub to_commit : (w : World) → exec commit w ≡ (ok tt, committed_world w)

-- The assignment of the driver `d` to a row of the ride.
abbrev pub assignment : Driver → ℕ → Assignment
assignment d at = record { driver_id = d.id; matched_at = at }

-- The locked part assigned the driver.
record Takes (d : Driver) (a : Result (Option Ride) × World) : Type 0 where
  pub ride : Ride
  result : a.0 ≡ ok (some ride)
  driver : ride.driver_id ≡ some d.id

module _ ⦃p : Platform⦄ (commits : Commits) (s : Shared) (ride : Ride) (b : Ride) (d : Driver)
    (found : find_ride s.db ride.id ≡ some b) (waiting : b.status ≡ requested)
    (free : d.status ≡ available)
    (allowed : (at : ℕ)
      → violates_unique s.db.rides (with_ride_status matched (some (assignment d at)) at b)
        ≡ false) where
  settle-Takes :
      (dm : List Driver) (rm : List Ride) (at : ℕ)
      → Takes d (
          run (settle ride d true) (
            add_write
              (at_clock (assigned_world (resting s dm rm) d busy) at)
              (set_ride_status ride.id matched (some (assignment d at)) at)))
  settle-Takes dm rm at =
      let updated =
        add_write (at_clock (assigned_world (resting s dm rm) d busy) at)
          (set_ride_status ride.id matched (some (assignment d at)) at) in
      let after = with_ride_status matched (some (assignment d at)) at b in
      let e : find_ride (committed_world updated).shared.db ride.id ≡ some after =
        find_by-modify_self ride_id_of ride.id
          (with_ride_status matched (some (assignment d at)) at) s.db.rides b (λ x. refl) found in
      simp
        (
          run_laws,
          commits.to_commit updated,
          refresh_found (committed_world updated) ride.id after e,
          emit_lem,
        )
        (record { ride = after; result = refl; driver = refl })

  take_driver-Takes :
      (dm : List Driver) (rm : List Ride)
      → find_by driver_id_of d.id dm ≡ some d
      → Takes d (run (take_driver ride d) (resting s dm rm))
  unfolding take_driver Rides.transition_status ◌>>=◌ run
  take_driver-Takes dm rm mapped =
      let (at, later, e) = now-later (assigned_world (resting s dm rm) d busy) in
      let marked = at_clock (assigned_world (resting s dm rm) d busy) at in
      simp
        (
          run_laws,
          assign_loaded (resting s dm rm) d busy (ground arith) mapped,
          e,
          update_written marked ride.id (requested ∷ []) matched (some (assignment d at)) b found
              (ground (arith, waiting)) (allowed at),
        )
        (settle-Takes dm rm at)

  assign_resting-Takes :
      (c : Candidate) (dm : List Driver) (rm : List Ride)
      → find_driver s.db c.driver.id ≡ some d
      → Takes d (run (assign_candidate ride c) (resting s dm rm))
  unfolding assign_candidate Drivers.get_by_id run ◌>>=◌
  assign_resting-Takes c dm rm there =
      let is_free : driver_status_eq d.status available ≡ true = ground (arith, free) in
      rw (get_driver_found (resting s dm rm) c.driver.id d there, run)
        (rw is_free (take_driver-Takes (put_by driver_id_of d dm) rm (find_by-put_by d dm)))

abbrev claim : ℕ → ℕ → Prog (Option ℕ)
claim key ttl = attempt (acquire_lock key ttl) translate_lock_error

module _ ⦃p : Platform⦄ (answers : Answers) where
  give_back_reply :
      (key token : ℕ) (w : World)
      → run (give_back key token) w
        ≡ (ok tt, with_locks w (Redis.compare_and_delete w.shared.clock key token w.shared.locks).1)
  unfolding run
  give_back_reply key token w =
      rw (run-bind (release_lock key token) (λ _. ret tt) w, release_reply answers key token w) refl

  -- A locked part that assigned ends the search.
  locked_result :
      (body : Prog (Option Ride)) (key token : ℕ) (next : Prog Ride) (r : Ride) (w : World)
      → (run body w).0 ≡ ok (some r)
      → (run (finally body (give_back key token) >>= λ assigned. case_option assigned next ret) w).0
        ≡ ok r
  unfolding run
  locked_result body key token next r w h =
      rw
        (
          run-bind (finally body (give_back key token)) (λ assigned. case_option assigned next ret)
              w,
          run-finally body (give_back key token) w,
          h,
          give_back_reply key token (run body w).1,
        )
        refl

  claim_result :
      {A : Type 0} (key ttl token : ℕ) (w : World)
      → exec uuid4 w ≡ (token, counted w)
      → holder w.shared.clock key w.shared.locks ≡ none
      → (f : Option ℕ → Prog A)
      → run (claim key ttl >>= f) w ≡ run (f (some token)) (granted key ttl token w)
  unfolding run
  claim_result key ttl token w e nolock f =
      rw
        (
          run-bind (claim key ttl) f w,
          run-attempt (acquire_lock key ttl) translate_lock_error w,
          acquire_granted answers key ttl token w e nolock,
        )
        refl

-- The search ends with its first candidate.
pub record Ends ⦃p : Platform⦄ (m : Prog Ride) (d : Driver) (w : World) : Type 0 where
  pub ride : Ride
  pub result : (run m w).0 ≡ ok ride
  pub driver : ride.driver_id ≡ some d.id

pub try_resting-Ends :
    ⦃p : Platform⦄ (answers : Answers) (commits : Commits) (env : Env) (ride : Ride) (c : Candidate)
    (cs : List Candidate) (s : Shared) (dm : List Driver) (rm : List Ride) (b : Ride) (d : Driver)
    → find_ride s.db ride.id ≡ some b
    → b.status ≡ requested
    → find_driver s.db c.driver.id ≡ some d
    → d.status ≡ available
    → ((at : ℕ)
        → violates_unique s.db.rides (with_ride_status matched (some (assignment d at)) at b)
          ≡ false)
    → holder s.clock (lock_key c.driver.id) s.locks ≡ none
    → Ends (try_candidates env ride (c ∷ cs)) d (resting s dm rm)
unfolding try_candidates
try_resting-Ends answers commits env ride c cs s dm rm b d found waiting there free allowed nolock =
    let w = resting s dm rm in
    let key = lock_key c.driver.id in
    let ttl = env.settings.lock_ttl_ms in
    let (token, e) = uuid4_any w in
    let w' = published (granted key ttl token w) (lock_acquired ride.id c.driver.id) in
    let taken : Takes d (run (assign_candidate ride c) w') =
      assign_resting-Takes commits w'.shared ride b d found waiting free allowed c dm rm there in
    record {
      ride = taken.ride;
      result =
          simp (run_laws, claim_result answers key ttl token w e nolock, emit_lem)
            (locked_result answers (assign_candidate ride c) key token (try_candidates env ride cs)
              taken.ride w' taken.result);
      driver = taken.driver;
    }
