-- ===== src/Program/Answers.antt =====
-- The answers of a platform to single commands.
use realtime_ride_matching_e.Prelude.{
  length, select, refl, ℕ, ◌≡◌, Bool, true, false, Option, none, some, List, [], inl, inr, ◌≤◌, sym,
  subst, arith, ap, ◌∙◌, find_by,
}
use realtime_ride_matching_e.Observability.Metrics.{Outcome, record_outcome}
use realtime_ride_matching_e.Observability.Events.{Event}
use realtime_ride_matching_e.Models.{
  Driver, DriverStatus, driver_status_eq, Ride, RideStatus, status_in,
}
use realtime_ride_matching_e.Storage.Tables.{
  Assignment, set_ride_status, driver_id_of, ride_id_of, with_ride_status, find_driver, find_ride,
}
use realtime_ride_matching_e.Storage.Constraints.{accepts_insert, violates_unique}
use realtime_ride_matching_e.Program.State.{Shared, World, fresh_session, view}
use realtime_ride_matching_e.Program.Commands.{
  record_attempt, add_ride, count_rides, count_drivers, query_rides, get_ride, Cmd, uuid4, ok, err,
  integrity_error, get_driver, refresh_ride, assign_driver_status, update_ride, commit, now,
  rollback, emit,
}
use realtime_ride_matching_e.Program.Exec.{Platform, exec}
use realtime_ride_matching_e.Program.Effects.{
  put_all, effect, Varies, called, at_clock, add_write, set_status,
}
use realtime_ride_matching_e.Program.Cases.{
  Updated, update_checked-Updated, update_checked_written, Committed, loaded_driver,
  load_driver_found, load_driver_missing, assigned_world, set_status_changed, set_status_unchanged,
  on_object_found, loaded_ride, load_ride_found, load_ride_missing, published, started, inserting,
  insert_accepted, insert_refused, as_objects_fresh, failed, done,
}

module _ ⦃p : Platform⦄ where
  -- A command whose answer does not vary has its documented effect.
  pub surely : (c : Cmd) (w : World) → (Varies c w (exec c w) → ⊥) → exec c w ≡ effect c w
  surely c w never = elim (p.documented c w) [ inl e ↦ e | inr v ↦ absurd (never v) ]

  pub update_ride-Updated :
      (w : World) (id : ℕ) (from : List RideStatus) (to : RideStatus) (extra : Option Assignment)
      → Updated w id from to extra (exec (update_ride id from to extra) w)
  unfolding effect
  update_ride-Updated w id from to extra =
      subst (Updated w id from to extra) (sym (surely (update_ride id from to extra) w (λ v. v)))
        (update_checked-Updated w id from to extra)

  pub update_written :
      (w : World) (id : ℕ) (from : List RideStatus) (to : RideStatus) (extra : Option Assignment)
      (r : Ride)
      → find_ride (view w) id ≡ some r
      → status_in r.status from ≡ true
      → violates_unique (view w).rides (with_ride_status to extra w.shared.clock r) ≡ false
      → exec (update_ride id from to extra) w
        ≡ (ok true, add_write w (set_ride_status id to extra w.shared.clock))
  unfolding effect
  update_written w id from to extra r e st v =
      surely (update_ride id from to extra) w (λ x. x)
      ∙ update_checked_written w id from to extra r e st v

  pub commit-Committed : (w : World) → Committed w (exec commit w)
  unfolding effect
  commit-Committed w = elim (p.documented commit w) [
    | inl e ↦ subst (Committed w) (sym e) done
    | inr e ↦ subst (Committed w) (sym e) failed
  ]

  pub get_driver_found :
      (w : World) (id : ℕ) (d : Driver)
      → find_driver (view w) id ≡ some d
      → exec (get_driver id true) w ≡ (some d, loaded_driver w d)
  unfolding effect
  get_driver_found w id d e = surely (get_driver id true) w (λ v. v) ∙ load_driver_found w id d e

  pub get_driver_missing :
      (w : World) (id : ℕ)
      → find_driver (view w) id ≡ none
      → exec (get_driver id true) w ≡ (none, w)
  unfolding effect
  get_driver_missing w id e = surely (get_driver id true) w (λ v. v) ∙ load_driver_missing w id e

  pub assign_loaded :
      (w : World) (d : Driver) (st : DriverStatus)
      → driver_status_eq d.status st ≡ false
      → find_by driver_id_of d.id w.session.driver_map ≡ some d
      → exec (assign_driver_status d.id st) w ≡ (tt, assigned_world w d st)
  unfolding effect
  assign_loaded w d st e f =
      surely (assign_driver_status d.id st) w (λ v. v)
      ∙ ap (λ (v : World). (tt, v))
          (on_object_found w d.id d (set_status w d.id st) f ∙ set_status_changed w d st e)

  pub assign_same :
      (w : World) (d : Driver) (st : DriverStatus)
      → driver_status_eq d.status st ≡ true
      → find_by driver_id_of d.id w.session.driver_map ≡ some d
      → exec (assign_driver_status d.id st) w ≡ (tt, w)
  unfolding effect
  assign_same w d st e f =
      surely (assign_driver_status d.id st) w (λ v. v)
      ∙ ap (λ (v : World). (tt, v))
          (on_object_found w d.id d (set_status w d.id st) f ∙ set_status_unchanged w d st e)

  pub get_ride_found :
      (w : World) (id : ℕ) (r : Ride)
      → find_by ride_id_of id w.session.ride_map ≡ none
      → find_ride (view w) id ≡ some r
      → exec (get_ride id) w ≡ (some r, loaded_ride w r)
  unfolding effect
  get_ride_found w id r m e =
      surely (get_ride id) w (λ v. v) ∙ (rw (m, effect) refl) ∙ load_ride_found w id r e

  pub get_ride_missing :
      (w : World) (id : ℕ)
      → find_by ride_id_of id w.session.ride_map ≡ none
      → find_ride (view w) id ≡ none
      → exec (get_ride id) w ≡ (none, w)
  unfolding effect
  get_ride_missing w id m e =
      surely (get_ride id) w (λ v. v) ∙ (rw (m, effect) refl) ∙ load_ride_missing w id e

  pub refresh_found :
      (w : World) (id : ℕ) (r : Ride)
      → find_ride (view w) id ≡ some r
      → exec (refresh_ride id) w ≡ (some r, loaded_ride w r)
  unfolding effect
  refresh_found w id r e = surely (refresh_ride id) w (λ v. v) ∙ load_ride_found w id r e

  pub refresh_missing :
      (w : World) (id : ℕ) → find_ride (view w) id ≡ none → exec (refresh_ride id) w ≡ (none, w)
  unfolding effect
  refresh_missing w id e = surely (refresh_ride id) w (λ v. v) ∙ load_ride_missing w id e

  -- The clock never goes back.
  pub now-later :
      (w : World) → (at : ℕ) × (w.shared.clock ≤ at) × (exec now w ≡ (at, at_clock w at))
  unfolding effect
  now-later w = elim (p.documented now w) [ inl e ↦ (w.shared.clock, omega arith, e) | inr v ↦ v ]

  pub uuid4_any :
      (w : World) → (id : ℕ) × (exec uuid4 w ≡ (id, record w { shared = called w.shared }))
  unfolding effect
  uuid4_any w = elim (p.documented uuid4 w) [ inl e ↦ (w.shared.calls, e) | inr v ↦ v ]

  pub rollback_lem : (w : World) → exec rollback w ≡ (tt, record w { session = fresh_session })
  unfolding effect
  rollback_lem w = surely rollback w (λ v. v)

  pub emit_lem : (w : World) (e : Event) → exec (emit e) w ≡ (tt, published w e)
  unfolding effect
  emit_lem w e = surely (emit e) w (λ v. v)

  pub query_rides_fresh :
      (q : Ride → Bool) (s : Shared) (rows : List Ride)
      → select q s.db.rides ≡ rows
      → exec (query_rides q) (started s) ≡ (
        rows,
        record {
          shared = s;
          session = record fresh_session { ride_map = put_all ride_id_of [] rows };
        },
      )
  unfolding effect
  query_rides_fresh q s rows e =
      surely (query_rides q) (started s) (λ v. v)
      ∙ rw (as_objects_fresh ride_id_of (select q s.db.rides), e, effect) refl

  pub add_ride_accepted :
      (s : Shared) (r : Ride)
      → accepts_insert s.db r ≡ true
      → exec (add_ride r) (started s) ≡ (ok tt, inserting s r)
  unfolding effect
  add_ride_accepted s r e = surely (add_ride r) (started s) (λ v. v) ∙ insert_accepted s r e

  pub add_ride_refused :
      (s : Shared) (r : Ride)
      → accepts_insert s.db r ≡ false
      → exec (add_ride r) (started s) ≡ (err integrity_error, started s)
  unfolding effect
  add_ride_refused s r e = surely (add_ride r) (started s) (λ v. v) ∙ insert_refused s r e

  pub count_rides_lem :
      (q : Ride → Bool) (w : World) → exec (count_rides q) w ≡ (length (select q (view w).rides), w)
  unfolding effect
  count_rides_lem q w = surely (count_rides q) w (λ v. v)

  pub count_drivers_lem :
      (q : Driver → Bool) (w : World)
      → exec (count_drivers q) w ≡ (length (select q (view w).drivers), w)
  unfolding effect
  count_drivers_lem q w = surely (count_drivers q) w (λ v. v)

  pub record_attempt_lem :
      (o : Outcome) (latency : ℕ) (w : World)
      → exec (record_attempt o latency) w ≡ (
        tt,
        record w {
          shared = record w.shared {
            metrics = record_outcome w.shared.metrics o latency w.shared.clock;
          };
        },
      )
  unfolding effect
  record_attempt_lem o latency w = surely (record_attempt o latency) w (λ v. v)
