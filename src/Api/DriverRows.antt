-- ===== src/Api/DriverRows.antt =====
-- What POST /drivers and PATCH /drivers/{id}/location store, read back: app/api/drivers.py.
use realtime_ride_matching_e.Prelude.{
  ℕ, ◌≡◌, refl, true, none, some, Option-cases, Bool-cases, inl, inr, case_option, if◌then◌else◌,
}
use realtime_ride_matching_e.Floats.{Float}
use realtime_ride_matching_e.Config.{Env}
use realtime_ride_matching_e.Models.{Driver, available}
use realtime_ride_matching_e.Storage.Tables.{
  Tables, apply, insert_driver, set_driver_location, find_driver,
}
use realtime_ride_matching_e.Program.State.{Shared, World}
use realtime_ride_matching_e.Program.Commands.{
  Result, ok, err, driver_not_found, database_error, ret, raise, lift, ◌>>=◌, commit,
}
use realtime_ride_matching_e.Program.Exec.{Platform, exec, run}
use realtime_ride_matching_e.Program.Effects.{called, committed_world, failed_world, flushed}
use realtime_ride_matching_e.Program.Laws.{run-call_bind, run_laws}
use realtime_ride_matching_e.Program.Cases.{started, Committed, failed, done, loaded_driver}
use realtime_ride_matching_e.Program.Answers.{
  now-later, uuid4_any, commit-Committed, get_driver_found, get_driver_missing,
}
use realtime_ride_matching_e.Program.DriverCalls.{
  adding, add_driver_fresh, get_driver_fresh, get_driver_absent, get_driver_mapped, is_there,
  relocated, moving, assign_location_moves, assign_location_rests, flush_lem, alone,
}
use realtime_ride_matching_e.Repositories.Drivers as DriverRepository
use realtime_ride_matching_e.Matching.Geo.{latlng_to_h3, zone_id_for_point}
use realtime_ride_matching_e.Api.Drivers.{commit_and_refresh, create_driver, update_driver_location}

-- The end of a request that stores: the commit fails and nothing is stored, or the tables are `t`
-- and the answer is the row of the driver.
pub data Refreshed (s t : Tables) (id : ℕ) : Result Driver × World → Type 0 where
  lost : (w : World) → w.shared.db ≡ s → Refreshed s t id (err database_error, w)
  gone : (w : World) → w.shared.db ≡ t → Refreshed s t id (err database_error, w)
  read :
      (d : Driver) (w : World)
      → w.shared.db ≡ t
      → find_driver t id ≡ some d
      → Refreshed s t id (ok d, w)

module _ (env : Env) (lat lng : Float) where
  abbrev pub cell_of : ℕ
  cell_of = latlng_to_h3 env lat lng env.settings.h3_resolution

  abbrev pub zone_of : ℕ
  zone_of = zone_id_for_point env lat lng env.settings.surge_zone_resolution

  abbrev pub new_driver : (id at : ℕ) → Driver
  new_driver id at = record {
    id = id;
    current_lat = lat;
    current_lng = lng;
    h3_index = cell_of;
    zone_id = zone_of;
    status = available;
    last_updated_at = at;
  }

  -- The tables after a driver was moved; a driver that is there already is not written.
  abbrev pub moved_tables : Shared → Driver → Tables
  moved_tables s d =
      if is_there lat lng cell_of zone_of d
      then s.db
      else apply s.db (set_driver_location d.id lat lng cell_of zone_of s.clock)

module _ ⦃p : Platform⦄ where
  refresh-Refreshed :
      (s : Tables) (w : World) (id : ℕ)
      → Refreshed s (committed_world w).shared.db id (
          run
            (DriverRepository.get_by_id id true >>= λ row.
              case_option row (raise database_error) ret)
            (committed_world w))
  unfolding DriverRepository.get_by_id run ◌>>=◌
  refresh-Refreshed s w id =
      let t = (committed_world w).shared.db in
      elim (Option-cases (find_driver t id)) [
        | inl e ↦
            simp (run_laws, get_driver_missing (committed_world w) id e)
              (gone (committed_world w) refl)
        | inr (d, e) ↦
            simp (run_laws, get_driver_found (committed_world w) id d e)
              (read d (loaded_driver (committed_world w) d) refl e)
      ]

  commit-Refreshed :
      (w : World) (id : ℕ) (a : Result (Unit {0}) × World)
      → Committed w a
      → Refreshed w.shared.db (committed_world w).shared.db id (
          run
            (lift a.0 >>= λ _. DriverRepository.get_by_id id true >>= λ row.
              case_option row (raise database_error) ret)
            a.1)
  commit-Refreshed w id a failed = simp run_laws (lost (failed_world w) refl)
  commit-Refreshed w id a done = simp run_laws (refresh-Refreshed w.shared.db w id)

  commit_and_refresh-Refreshed :
      (w : World) (id : ℕ)
      → Refreshed w.shared.db (committed_world w).shared.db id (run (commit_and_refresh id) w)
  unfolding commit_and_refresh
  commit_and_refresh-Refreshed w id =
      rw (run-call_bind commit _ w) (commit-Refreshed w id (exec commit w) (commit-Committed w))

  module _ (env : Env) (lat lng : Float) where
    pub create_driver-Refreshed :
        (s : Shared)
        → (id : ℕ) × (at : ℕ) × Refreshed s.db
            (apply s.db (insert_driver (new_driver env lat lng id at)))
            id
            (run (create_driver env lat lng) (started s))
    unfolding create_driver DriverRepository.create ◌>>=◌ commit_and_refresh run
    create_driver-Refreshed s =
        let (id, e) = uuid4_any (started s) in
        let (at, later, e') = now-later (record (started s) { shared = called s }) in
        let s' : Shared = record (called (called s)) { clock = at } in
        let d = new_driver env lat lng id at in
        (
          id,
          at,
          simp (run_laws, e, e', add_driver_fresh s' d)
              (commit_and_refresh-Refreshed (adding s' d) id),
        )

    pub update_driver_location-Refreshed :
        (s : Shared) (d : Driver)
        → find_driver s.db d.id ≡ some d
        → Refreshed s.db
            (moved_tables env lat lng s d)
            d.id
            (run (update_driver_location env d.id lat lng) (started s))
    unfolding update_driver_location DriverRepository.update_location DriverRepository.get_by_id
        ◌>>=◌ commit_and_refresh run flushed
    update_driver_location-Refreshed s d found =
        elim (Bool-cases (is_there lat lng (cell_of env lat lng) (zone_of env lat lng) d)) [
          | inl e ↦
              simp
                (
                  run_laws,
                  get_driver_fresh s d.id d found,
                  assign_location_rests s lat lng (cell_of env lat lng) (zone_of env lat lng) d e,
                  flush_lem (loaded_driver (started s) d),
                  get_driver_mapped (flushed (loaded_driver (started s) d)) d.id d (alone d),
                  e,
                )
                (commit_and_refresh-Refreshed (flushed (loaded_driver (started s) d)) d.id)
          | inr e ↦
              simp
                (
                  run_laws,
                  get_driver_fresh s d.id d found,
                  assign_location_moves s lat lng (cell_of env lat lng) (zone_of env lat lng) d e,
                  flush_lem (moving s lat lng (cell_of env lat lng) (zone_of env lat lng) d),
                  get_driver_mapped
                      (flushed (moving s lat lng (cell_of env lat lng) (zone_of env lat lng) d))
                      d.id (relocated lat lng (cell_of env lat lng) (zone_of env lat lng) d)
                      (alone (relocated lat lng (cell_of env lat lng) (zone_of env lat lng) d)),
                  e,
                )
                (commit_and_refresh-Refreshed
                  (flushed (moving s lat lng (cell_of env lat lng) (zone_of env lat lng) d)) d.id)
        ]

    pub update_driver_location-absent :
        (s : Shared) (id : ℕ)
        → find_driver s.db id ≡ none
        → run (update_driver_location env id lat lng) (started s)
          ≡ (err driver_not_found, started s)
    unfolding update_driver_location DriverRepository.update_location DriverRepository.get_by_id
        ◌>>=◌ run
    update_driver_location-absent s id e = simp (run_laws, get_driver_absent s id e) refl
