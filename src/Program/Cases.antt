-- ===== src/Program/Cases.antt =====
-- The possible answers to the commands that write, with the world after each.
use realtime_ride_matching_e.Prelude.{
  refl, ℕ, ◌≡◌, Bool, true, false, Option, none, some, List, [], ◌∷◌, ◌++◌, inl, inr, Bool-cases,
  Option-cases, arith, ap, find_by, put_by,
}
use realtime_ride_matching_e.Observability.Metrics.{Outcome, record_outcome}
use realtime_ride_matching_e.Observability.Events.{Event, publish}
use realtime_ride_matching_e.Models.{
  Driver, DriverStatus, driver_status_eq, Ride, RideStatus, status_in,
}
use realtime_ride_matching_e.Storage.Tables.{
  insert_ride, Assignment, set_driver_status, set_ride_status, driver_id_of, ride_id_of,
  with_ride_status, find_driver, find_ride,
}
use realtime_ride_matching_e.Storage.Constraints.{accepts_insert, violates_unique}
use realtime_ride_matching_e.Program.State.{Shared, World, fresh_session, view}
use realtime_ride_matching_e.Program.Commands.{Result, ok, err, integrity_error, database_error}
use realtime_ride_matching_e.Program.Effects.{
  insert_checked, as_objects, at_clock, committed_world, failed_world, add_write, set_status,
  on_object, load_driver, load_ride, update_checked,
}

-- The conditional UPDATE finds no row, or none in the statuses asked for, is refused by a unique index, or
-- writes the row.
pub data Updated (w : World) (id : ℕ) (from : List RideStatus) (to : RideStatus)
    (extra : Option Assignment) : Result Bool × World → Type 0 where
  absent : find_ride (view w) id ≡ none → Updated w id from to extra (ok false, w)
  missed :
      (r : Ride)
      → find_ride (view w) id ≡ some r
      → status_in r.status from ≡ false
      → Updated w id from to extra (ok false, w)
  refused :
      (r : Ride)
      → find_ride (view w) id ≡ some r
      → violates_unique (view w).rides (with_ride_status to extra w.shared.clock r) ≡ true
      → Updated w id from to extra (err integrity_error, w)
  written :
      (r : Ride)
      → find_ride (view w) id ≡ some r
      → status_in r.status from ≡ true
      → Updated w id from to extra
          (ok true, add_write w (set_ride_status id to extra w.shared.clock))

pub update_checked-Updated :
    (w : World) (id : ℕ) (from : List RideStatus) (to : RideStatus) (extra : Option Assignment)
    → Updated w id from to extra (update_checked w id from to extra)
unfolding update_checked
update_checked-Updated w id from to extra = elim (Option-cases (find_ride (view w) id)) [
  | inl e ↦ rw (e, update_checked) (absent e)
  | inr (r, e) ↦
      rw (e, update_checked)
        (elim (Bool-cases (status_in r.status from)) [
          | inl s ↦
              elim (Bool-cases
                (violates_unique (view w).rides (with_ride_status to extra w.shared.clock r))) [
                  | inl v ↦ rw (s, v) (refused r e v)
                  | inr v ↦ rw (s, v) (written r e s)
                ]
          | inr s ↦ rw s (missed r e s)
        ])
]

pub update_checked_written :
    (w : World) (id : ℕ) (from : List RideStatus) (to : RideStatus) (extra : Option Assignment)
    (r : Ride)
    → find_ride (view w) id ≡ some r
    → status_in r.status from ≡ true
    → violates_unique (view w).rides (with_ride_status to extra w.shared.clock r) ≡ false
    → update_checked w id from to extra
      ≡ (ok true, add_write w (set_ride_status id to extra w.shared.clock))
unfolding update_checked
update_checked_written w id from to extra r e st v = rw (e, update_checked) (rw (st, v) refl)

pub data Committed (w : World) : Result (Unit {0}) × World → Type 0 where
  failed : Committed w (err database_error, failed_world w)
  done : Committed w (ok tt, committed_world w)

abbrev pub loaded_driver : World → Driver → World
loaded_driver w d = record w {
  session = record w.session { driver_map = put_by driver_id_of d w.session.driver_map };
}

pub load_driver_found :
    (w : World) (id : ℕ) (d : Driver)
    → find_driver (view w) id ≡ some d
    → load_driver w id ≡ (some d, loaded_driver w d)
unfolding load_driver
load_driver_found w id d e = rw (e, load_driver)

pub load_driver_missing :
    (w : World) (id : ℕ) → find_driver (view w) id ≡ none → load_driver w id ≡ (none, w)
unfolding load_driver
load_driver_missing w id e = rw (e, load_driver)

pub find_by-put_by :
    (d : Driver) (ds : List Driver) → find_by driver_id_of d.id (put_by driver_id_of d ds) ≡ some d
find_by-put_by d [] = ground arith
find_by-put_by d (x ∷ ds) = ground (arith, find_by-put_by d ds)

abbrev pub assigned_world : World → Driver → DriverStatus → World
assigned_world w d st = record w {
  session = record w.session {
    driver_map = put_by driver_id_of (record d { status = st }) w.session.driver_map;
    dirty = w.session.dirty ++ set_driver_status d.id st w.shared.clock ∷ [];
  };
}

pub set_status_changed :
    (w : World) (d : Driver) (st : DriverStatus)
    → driver_status_eq d.status st ≡ false
    → set_status w d.id st d ≡ assigned_world w d st
unfolding set_status
set_status_changed w d st e = rw e

pub set_status_unchanged :
    (w : World) (d : Driver) (st : DriverStatus)
    → driver_status_eq d.status st ≡ true
    → set_status w d.id st d ≡ w
unfolding set_status
set_status_unchanged w d st e = rw e refl

pub on_object_found :
    (w : World) (id : ℕ) (d : Driver) (f : Driver → World)
    → find_by driver_id_of id w.session.driver_map ≡ some d
    → on_object w id f ≡ f d
on_object_found w id d f e = rw (e, on_object)

abbrev pub loaded_ride : World → Ride → World
loaded_ride w r = record w {
  session = record w.session { ride_map = put_by ride_id_of r w.session.ride_map };
}

pub load_ride_found :
    (w : World) (id : ℕ) (r : Ride)
    → find_ride (view w) id ≡ some r
    → load_ride w id ≡ (some r, loaded_ride w r)
unfolding load_ride
load_ride_found w id d e = rw (e, load_ride)

pub load_ride_missing :
    (w : World) (id : ℕ) → find_ride (view w) id ≡ none → load_ride w id ≡ (none, w)
unfolding load_ride
load_ride_missing w id e = rw (e, load_ride)

abbrev pub published : World → Event → World
published w e = record w { shared = record w.shared { bus = publish w.shared.bus e } }

abbrev pub started : Shared → World
started s = record { shared = s; session = fresh_session }

-- A new ride is in the open transaction.
abbrev pub inserting : Shared → Ride → World
inserting s r = record {
  shared = s;
  session = record { driver_map = []; ride_map = r ∷ []; dirty = []; writes = insert_ride r ∷ [] };
}

pub insert_accepted :
    (s : Shared) (r : Ride)
    → accepts_insert s.db r ≡ true
    → insert_checked (started s) r ≡ (ok tt, inserting s r)
unfolding insert_checked
insert_accepted s r e = rw (e, insert_checked) refl

pub insert_refused :
    (s : Shared) (r : Ride)
    → accepts_insert s.db r ≡ false
    → insert_checked (started s) r ≡ (err integrity_error, started s)
unfolding insert_checked
insert_refused s r e = rw (e, insert_checked) refl

-- With nothing in the identity map, a query's objects are its rows.
pub as_objects_fresh {ℓ} : {A : Type ℓ} (key : A → ℕ) (xs : List A) → as_objects key [] xs ≡ xs
as_objects_fresh key [] = refl
as_objects_fresh key (x ∷ xs) = ap (λ rest. x ∷ rest) (as_objects_fresh key xs)

-- The clock was read, and an attempt counted.
abbrev pub attempted : World → Outcome → ℕ → ℕ → World
attempted w o latency at =
    let w' = at_clock w at in
    record w' {
      shared = record w'.shared { metrics = record_outcome w.shared.metrics o latency at };
    }
