-- ===== src/Matching/Outcome.antt =====
-- What match_ride leaves in the tables.
use realtime_ride_matching_e.Prelude.{
  ℕ, ◌≡◌, refl, sym, subst, Bool, true, Option, none, some, List, [], ◌∷◌, inl, inr, arith,
  Option-cases, Bool-cases, find_by, ◌==◌, find_by-modify_self, put_by,
}
use realtime_ride_matching_e.Models.{
  Driver, DriverStatus, available, busy, driver_status_eq, Ride, RideStatus, requested, matched,
  status_in,
}
use realtime_ride_matching_e.Storage.Tables.{
  Tables, Assignment, set_ride_status, set_driver_status, replay, find_driver, find_ride,
  driver_id_of, ride_id_of, with_ride_status,
}
use realtime_ride_matching_e.Program.State.{Shared, World}
use realtime_ride_matching_e.Program.Commands.{
  Exn, Result, ok, err, lift, ◌>>=◌, update_ride, commit, invalid_ride_state, database_error,
  integrity_error,
}
use realtime_ride_matching_e.Program.Exec.{Platform, exec, run}
use realtime_ride_matching_e.Program.Effects.{add_write, at_clock, committed_world}
use realtime_ride_matching_e.Program.Rests.{Rests, resting, resting_of_Rests}
use realtime_ride_matching_e.Program.Laws.{run_laws}
use realtime_ride_matching_e.Program.Cases.{
  Updated, absent, missed, refused, written, Committed, failed, done, find_by-put_by,
  assigned_world,
}
use realtime_ride_matching_e.Program.Answers.{
  update_ride-Updated, commit-Committed, get_driver_found, get_driver_missing, assign_loaded,
  refresh_found, now-later, rollback_lem, emit_lem,
}
use realtime_ride_matching_e.Repositories.Drivers
use realtime_ride_matching_e.Repositories.Rides
use realtime_ride_matching_e.Matching.Ranking.{Candidate}
use realtime_ride_matching_e.Matching.Matcher.{after_commit, settle, take_driver, assign_candidate}

-- The ride was requested and its driver available; one commit moved both, and nothing else.
pub record Assigned (t : Tables) (id : ℕ) (r : Ride) (t' : Tables) : Type 0 where
  pub driver : Driver
  pub before : Ride
  pub at : ℕ
  pub driver_at : ℕ
  pub was_requested : find_ride t id ≡ some before
  pub before_status : before.status ≡ requested
  pub was_available : find_driver t driver.id ≡ some driver
  pub driver_status : driver.status ≡ available
  pub tables :
      t'
      ≡ replay
          (set_ride_status id matched (some (record { driver_id = driver.id; matched_at = at })) at
            ∷ set_driver_status driver.id busy driver_at
            ∷ [])
          t
  pub returned :
      r
      ≡ with_ride_status matched
          (some (record { driver_id = driver.id; matched_at = at }))
          at
          before

-- How the locked part may end.
pub data CandidateOutcome (t : Tables) (id : ℕ) : Result (Option Ride) × World → Type 0 where
  skipped : {w : World} → Rests t w → CandidateOutcome t id (ok none, w)
  assigned :
      {w : World} (r : Ride) → Assigned t id r w.shared.db → CandidateOutcome t id (ok (some r), w)
  raised : {w : World} (e : Exn) → w.shared.db ≡ t → CandidateOutcome t id (err e, w)

requested_of_in : (s : RideStatus) → status_in s (requested ∷ []) ≡ true → s ≡ requested
requested_of_in s h = ground arith

module _ (s : Shared) (dm : List Driver) (rm : List Ride) (ride : Ride) (d : Driver) (at : ℕ) where
  abbrev extra : Assignment
  extra = record { driver_id = d.id; matched_at = at }

  -- The worlds before the UPDATE and before the commit.
  abbrev marked : World
  marked = at_clock (assigned_world (resting s dm rm) d busy) at

  abbrev updated : World
  updated = add_write marked (set_ride_status ride.id matched (some extra) at)

  module _ ⦃p : Platform⦄ (was : find_driver s.db d.id ≡ some d) (free : d.status ≡ available) where
    after_commit-CandidateOutcome :
        (b : Ride) (p : Result (Unit {0}) × World)
        → find_ride s.db ride.id ≡ some b
        → b.status ≡ requested
        → Committed updated p
        → CandidateOutcome s.db ride.id (run (after_commit ride d p.0) p.1)
    after_commit-CandidateOutcome b p found st failed = simp run_laws (raised database_error refl)
    after_commit-CandidateOutcome b p found st done =
        let b' = with_ride_status matched (some extra) at b in
        let w = committed_world updated in
        let e : find_ride w.shared.db ride.id ≡ some b' =
          find_by-modify_self ride_id_of ride.id (with_ride_status matched (some extra) at)
            s.db.rides b (λ x. refl) found in
        simp (run_laws, refresh_found w ride.id b' e, emit_lem)
          (assigned b' (record {
            driver = d;
            before = b;
            at = at;
            driver_at = s.clock;
            was_requested = found;
            before_status = st;
            was_available = was;
            driver_status = free;
            tables = refl;
            returned = refl;
          }))

    settle-CandidateOutcome :
        (p : Result Bool × World)
        → Updated marked ride.id (requested ∷ []) matched (some extra) p
        → CandidateOutcome s.db ride.id (run (lift p.0 >>= settle ride d) p.1)
    settle-CandidateOutcome p (absent none_found) =
        simp (run_laws, rollback_lem) (raised (invalid_ride_state none) refl)
    settle-CandidateOutcome p (missed r found st) =
        simp (run_laws, rollback_lem) (raised (invalid_ride_state none) refl)
    settle-CandidateOutcome p (refused r found v) = simp run_laws (raised integrity_error refl)
    settle-CandidateOutcome p (written b found st) = simp run_laws (
        after_commit-CandidateOutcome b (exec commit updated) found (requested_of_in b.status st)
          (commit-Committed updated))

    transition_resting : CandidateOutcome s.db ride.id (
        run
          (Rides.transition_status ride.id (requested ∷ []) matched (some extra) >>= settle ride d)
          marked)
    unfolding Rides.transition_status run ◌>>=◌
    transition_resting =
        settle-CandidateOutcome
          (exec (update_ride ride.id (requested ∷ []) matched (some extra)) marked)
          (update_ride-Updated marked ride.id (requested ∷ []) matched (some extra))

take_driver-resting :
    ⦃p : Platform⦄ (s : Shared) (dm : List Driver) (rm : List Ride) (ride : Ride) (d : Driver)
    → find_driver s.db d.id ≡ some d
    → d.status ≡ available
    → find_by driver_id_of d.id dm ≡ some d
    → CandidateOutcome s.db ride.id (run (take_driver ride d) (resting s dm rm))
unfolding take_driver
take_driver-resting s dm rm ride d was free mapped =
    let (at, later, e) = now-later (assigned_world (resting s dm rm) d busy) in
    simp (run_laws, assign_loaded (resting s dm rm) d busy (ground arith) mapped, e)
      (transition_resting s dm rm ride d at was free)

eq_available : (s : DriverStatus) → driver_status_eq s available ≡ true → s ≡ available
eq_available s h = ground arith

find_driver_id :
    (id : ℕ) (d : Driver) (ds : List Driver) → find_by driver_id_of id ds ≡ some d → (id ≡ d.id)
find_driver_id id d [] h = cc
find_driver_id id d (x ∷ ds) h = elim (Bool-cases (x.id == id)) [
  | inl here ↦ ground (arith, h)
  | inr there ↦ find_driver_id id d ds (ground (arith, h))
]

-- The locked part, from a world at rest.
assign_resting :
    ⦃p : Platform⦄ (s : Shared) (dm : List Driver) (rm : List Ride) (ride : Ride) (c : Candidate)
    → CandidateOutcome s.db ride.id (run (assign_candidate ride c) (resting s dm rm))
unfolding assign_candidate Drivers.get_by_id run ◌>>=◌
assign_resting s dm rm ride c =
    let w = resting s dm rm in
    elim (Option-cases (find_driver s.db c.driver.id)) [
      | inl e ↦
          rw (get_driver_missing w c.driver.id e, run)
            (skipped (record { db = refl; writes = refl; dirty = refl }))
      | inr (d, e) ↦
          rw (get_driver_found w c.driver.id d e, run)
            (elim (Bool-cases (driver_status_eq d.status available)) [
              | inl free ↦ rw free (
                  take_driver-resting s (put_by driver_id_of d dm) rm ride d
                    (subst (λ i. find_driver s.db i ≡ some d)
                      (find_driver_id c.driver.id d s.db.drivers e) e)
                    (eq_available d.status free) (find_by-put_by d dm))
              | inr other ↦ rw other (skipped (record { db = refl; writes = refl; dirty = refl }))
            ])
    ]

pub assign_candidate-CandidateOutcome :
    ⦃p : Platform⦄ (t : Tables) (w : World) (ride : Ride) (c : Candidate)
    → Rests t w
    → CandidateOutcome t ride.id (run (assign_candidate ride c) w)
assign_candidate-CandidateOutcome t w ride c h =
    subst (λ v. CandidateOutcome t ride.id (run (assign_candidate ride c) v))
      (sym (resting_of_Rests w h))
      (subst
        (λ u. CandidateOutcome u ride.id (
          run (assign_candidate ride c) (resting w.shared w.session.driver_map w.session.ride_map)))
        h.db (assign_resting w.shared w.session.driver_map w.session.ride_map ride c))
