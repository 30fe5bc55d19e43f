-- ===== src/RideService/Ending.antt =====
-- cancel_ride and complete_ride of app/services/ride_service.py: every way in which they end.
use realtime_ride_matching_e.Prelude.{
  not, ℕ, ◌≡◌, refl, subst, Bool, true, false, Option, none, some, List, [], ◌∷◌, inl, inr,
  Option-cases, Bool-cases, if◌then◌else◌, find_by-modify_self,
}
use realtime_ride_matching_e.Models.{
  Driver, available, driver_status_eq, Ride, RideStatus, completed, cancelled, active_ride_statuses,
  status_in,
}
use realtime_ride_matching_e.Storage.Tables.{
  Tables, set_ride_status, set_driver_status, apply, replay, find_driver, find_ride, ride_id_of,
  with_ride_status,
}
use realtime_ride_matching_e.Observability.Events.{Event, ride_cancelled, ride_completed}
use realtime_ride_matching_e.Program.State.{Shared, World, view}
use realtime_ride_matching_e.Program.Commands.{
  Result, ok, err, Prog, ret, raise, call, lift, ◌>>=◌, ◌>>◌, ride_not_found, invalid_ride_state,
  integrity_error, database_error, get_ride, update_ride, refresh_ride, commit, emit, rollback,
}
use realtime_ride_matching_e.Program.Exec.{Platform, exec, run}
use realtime_ride_matching_e.Program.Effects.{add_write, committed_world}
use realtime_ride_matching_e.Program.Laws.{run_laws}
use realtime_ride_matching_e.Program.Cases.{
  started, Updated, absent, missed, refused, written, Committed, failed, done, find_by-put_by,
  assigned_world, loaded_driver, loaded_ride,
}
use realtime_ride_matching_e.Program.Answers.{
  update_ride-Updated, commit-Committed, get_driver_found, get_driver_missing, assign_loaded,
  assign_same, get_ride_found, get_ride_missing, refresh_found, rollback_lem, emit_lem,
}
use realtime_ride_matching_e.Repositories.Drivers
use realtime_ride_matching_e.Repositories.Rides
use realtime_ride_matching_e.Matching.Matcher.{require_row}
use realtime_ride_matching_e.RideService.{
  status_of, completable_statuses, transition_or_raise, free_driver, end_ride, cancel_ride,
  complete_ride,
}

-- The driver of the ride, if there is one, becomes available.
abbrev pub freed : Option ℕ → ℕ → Tables → Tables
freed none at t = t
freed (some id) at t = elim (find_driver t id) [
  | none ↦ t
  | some d ↦
      if driver_status_eq d.status available
      then t
      else apply t (set_driver_status d.id available at)
]

-- One commit moved the ride and freed its driver, and nothing else.
pub record EndedBy (t : Tables) (id : ℕ) (from : List RideStatus) (to : RideStatus) (r : Ride)
    (t' : Tables) : Type 0 where
  pub before : Ride
  pub at : ℕ
  pub was_there : find_ride t id ≡ some before
  pub was_allowed : status_in before.status from ≡ true
  pub returned : r ≡ with_ride_status to none at before
  pub tables : t' ≡ freed before.driver_id at (apply t (set_ride_status id to none at))

pub data Ended (t : Tables) (id : ℕ) (from : List RideStatus) (to : RideStatus)
    : Result Ride × World → Type 0 where
  ended : {w : World} (r : Ride) → EndedBy t id from to r w.shared.db → Ended t id from to (ok r, w)
  not_found :
      {w : World}
      → find_ride t id ≡ none
      → w.shared.db ≡ t
      → Ended t id from to (err ride_not_found, w)
  wrong_state :
      {w : World} (r : Ride)
      → find_ride t id ≡ some r
      → status_in r.status from ≡ false
      → w.shared.db ≡ t
      → Ended t id from to (err (invalid_ride_state (some r.status)), w)
  refused_row : {w : World} → w.shared.db ≡ t → Ended t id from to (err integrity_error, w)
  failed_commit : {w : World} → w.shared.db ≡ t → Ended t id from to (err database_error, w)

abbrev conclude : ℕ → (Ride → Event) → Prog Ride
conclude id event = do
  committed ← call commit
  lift committed
  row ← call (refresh_ride id)
  fresh ← require_row row
  call (emit (event fresh))
  ret fresh

module _ ⦃p : Platform⦄ (t : Tables) (id : ℕ) (from : List RideStatus) (to : RideStatus)
    (event : Ride → Event) where
  Committed-Ended :
      (w : World) (r : Ride) (a : Result (Unit {0}) × World)
      → w.shared.db ≡ t
      → find_ride (replay w.session.dirty (view w)) id ≡ some r
      → EndedBy t id from to r (replay w.session.dirty (view w))
      → Committed w a
      → Ended t id from to (
          run
            (lift a.0 >>= λ _. call (refresh_ride id) >>= λ row.
              require_row row >>= λ fresh. call (emit (event fresh)) >>= λ _. ret fresh)
            a.1)
  Committed-Ended w r a same found by failed = simp run_laws (failed_commit same)
  Committed-Ended w r a same found by done =
      simp (run_laws, refresh_found (committed_world w) id r found, emit_lem) (ended r by)

  conclude-Ended :
      (w : World) (r : Ride)
      → w.shared.db ≡ t
      → find_ride (replay w.session.dirty (view w)) id ≡ some r
      → EndedBy t id from to r (replay w.session.dirty (view w))
      → Ended t id from to (run (conclude id event) w)
  unfolding run ◌>>=◌
  conclude-Ended w r same found by =
      Committed-Ended w r (exec commit w) same found by (commit-Committed w)

-- The world after the conditional UPDATE, and the reload of the ride.
abbrev moved : Shared → ℕ → RideStatus → List Ride → World
moved s id to rides = record {
  shared = s;
  session = record {
    driver_map = [];
    ride_map = rides;
    dirty = [];
    writes = set_ride_status id to none s.clock ∷ [];
  };
}

module _ ⦃p : Platform⦄ (s : Shared) (id : ℕ) (from : List RideStatus) (to : RideStatus)
    (event : Ride → Event) (b : Ride) (found : find_ride s.db id ≡ some b)
    (allowed : status_in b.status from ≡ true) where
  abbrev after : Ride
  after = with_ride_status to none s.clock b

  abbrev moved_tables : Tables
  moved_tables = apply s.db (set_ride_status id to none s.clock)

  abbrev freed_tables : Driver → Tables
  freed_tables x = apply moved_tables (set_driver_status x.id available s.clock)

  found_after : find_ride moved_tables id ≡ some after
  found_after =
      find_by-modify_self ride_id_of id (with_ride_status to none s.clock) s.db.rides b (λ x. refl)
        found

  by :
      (t' : Tables) → t' ≡ freed b.driver_id s.clock moved_tables → EndedBy s.db id from to after t'
  by t' e = record {
    before = b;
    at = s.clock;
    was_there = found;
    was_allowed = allowed;
    returned = refl;
    tables = e;
  }

  free_driver-Ended :
      (rides : List Ride) (o : Option ℕ)
      → o ≡ b.driver_id
      → Ended s.db id from to (run (free_driver o >>= λ _. conclude id event) (moved s id to rides))
  unfolding free_driver Drivers.get_by_id run ◌>>=◌
  free_driver-Ended rides none e =
      conclude-Ended s.db id from to event (moved s id to rides) after refl found_after
        (by moved_tables (subst (λ o. moved_tables ≡ freed o s.clock moved_tables) e refl))
  free_driver-Ended rides (some d) e =
      let w = moved s id to rides in
      elim (Option-cases (find_driver s.db d)) [
        | inl gone ↦
            rw (get_driver_missing w d gone, run)
              (conclude-Ended s.db id from to event w after refl found_after (
                by moved_tables (
                  subst (λ o. moved_tables ≡ freed o s.clock moved_tables) e
                    (rw (gone, freed) refl))))
        | inr (x, there) ↦
            rw (get_driver_found w d x there, run)
              (elim (Bool-cases (driver_status_eq x.status available)) [
                | inl free ↦
                    rw (assign_same (loaded_driver w x) x available free (find_by-put_by x []), run)
                      (conclude-Ended s.db id from to event (loaded_driver w x) after refl
                        found_after
                        (by moved_tables (
                          subst (λ o. moved_tables ≡ freed o s.clock moved_tables) e
                            (rw (there, free, freed) refl))))
                | inr taken ↦
                    rw
                      (
                        assign_loaded (loaded_driver w x) x available taken (find_by-put_by x []),
                        run,
                      )
                      (conclude-Ended s.db id from to event
                        (assigned_world (loaded_driver w x) x available) after refl found_after
                        (by (freed_tables x) (
                          subst (λ o. freed_tables x ≡ freed o s.clock moved_tables) e
                            (rw (there, taken, freed) refl))))
              ])
      ]

-- What follows the conditional UPDATE.
abbrev verdict : ℕ → Bool → Prog Ride
verdict id transitioned =
    if not transitioned
    then (do
      call rollback
      current ← call (get_ride id)
      raise (invalid_ride_state (status_of current)))
    else (do row ← call (refresh_ride id); require_row row)

module _ ⦃p : Platform⦄ (s : Shared) (id : ℕ) (from : List RideStatus) (to : RideStatus)
    (event : Ride → Event) where
  Updated-Ended :
      (b : Ride) (a : Result Bool × World)
      → Updated (loaded_ride (started s) b) id from to none a
      → find_ride s.db id ≡ some b
      → Ended s.db id from to (
          run
            (lift a.0 >>= verdict id >>= λ ride.
              free_driver ride.driver_id >>= λ _. conclude id event)
            a.1)
  Updated-Ended b a (absent gone) there = absurd (cc (gone, there))
  Updated-Ended b a (missed r found st) there =
      simp (run_laws, rollback_lem, get_ride_found (started s) id r refl found)
        (wrong_state r found st refl)
  Updated-Ended b a (refused r found v) there = simp run_laws (refused_row refl)
  Updated-Ended b a (written r found st) there =
      simp
        (
          run_laws,
          refresh_found (add_write (loaded_ride (started s) b) (set_ride_status id to none s.clock))
              id (with_ride_status to none s.clock r) (found_after s id from to event r found st),
        )
        (free_driver-Ended s id from to event r found st _ r.driver_id refl)

  end_ride-Ended : Ended s.db id from to (run (end_ride id from to event) (started s))
  unfolding end_ride transition_or_raise Rides.get_by_id Rides.transition_status run ◌>>=◌
  end_ride-Ended = elim (Option-cases (find_ride s.db id)) [
    | inl gone ↦ rw (get_ride_missing (started s) id refl gone, run) (not_found gone refl)
    | inr (b, there) ↦
        rw (get_ride_found (started s) id b refl there, run)
          (Updated-Ended b (exec (update_ride id from to none) (loaded_ride (started s) b))
            (update_ride-Updated (loaded_ride (started s) b) id from to none) there)
  ]

-- Cancelling and completing, from a new session: the ride that is returned was in a status which the
-- operation allows, and one commit moved it and made its driver available, and nothing else. An unknown
-- ride, or one in another status, gives the exception that names this; a constraint that refuses the row
-- and a commit that fails give theirs. With any exception the tables are unchanged.
pub endings-Ended :
    ⦃p : Platform⦄ (s : Shared) (id : ℕ)
    → Ended s.db id active_ride_statuses cancelled (run (cancel_ride id) (started s))
      × Ended s.db id completable_statuses completed (run (complete_ride id) (started s))
unfolding cancel_ride complete_ride
endings-Ended s id = (
  end_ride-Ended s id active_ride_statuses cancelled (λ r. ride_cancelled r.id r.driver_id),
  end_ride-Ended s id completable_statuses completed (λ r. ride_completed r.id r.driver_id),
)
