-- ===== src/Api/ReadBack.antt =====
-- A driver that was stored is read back as it was answered: app/api/drivers.py.
use realtime_ride_matching_e.Prelude.{
  ℕ, ◌≡◌, refl, sym, ap, ◌∙◌, subst, true, false, none, some, List, [], ◌∷◌, ◌++◌, ◌==◌, ==_self,
  Bool-cases, inl, inr, find_by, case_option, arith, if◌then◌else◌, find_by-modify_by,
  find_by-modify_self,
}
use realtime_ride_matching_e.Floats.{Float}
use realtime_ride_matching_e.Config.{Env}
use realtime_ride_matching_e.Models.{Driver}
use realtime_ride_matching_e.Storage.Tables.{
  Tables, apply, insert_driver, find_driver, driver_id_of, with_location,
}
use realtime_ride_matching_e.Program.State.{Shared, World}
use realtime_ride_matching_e.Program.Commands.{◌>>=◌, Result, ok, err, driver_not_found}
use realtime_ride_matching_e.Program.Exec.{Platform, run}
use realtime_ride_matching_e.Program.Laws.{run_laws}
use realtime_ride_matching_e.Program.Cases.{started}
use realtime_ride_matching_e.Program.DriverCalls.{get_driver_fresh, is_there, relocated}
use realtime_ride_matching_e.Repositories.Drivers as DriverRepository
use realtime_ride_matching_e.Api.Drivers.{create_driver, get_driver, update_driver_location}
use realtime_ride_matching_e.Api.DriverRows.{
  Refreshed, lost, gone, read, cell_of, zone_of, new_driver, moved_tables, create_driver-Refreshed,
  update_driver_location-Refreshed, update_driver_location-absent,
}

find-append :
    (id : ℕ) (ds : List Driver) (d : Driver)
    → find_by driver_id_of id (ds ++ d ∷ [])
      ≡ (case_option (find_by driver_id_of id ds) (if d.id == id then some d else none) some)
find-append id [] d = refl
find-append id (x ∷ ds) d = ground (arith, find-append id ds d)

id-find : (id : ℕ) (ds : List Driver) (d : Driver) → find_by driver_id_of id ds ≡ some d → d.id ≡ id
id-find id [] d e = absurd (cc e)
id-find id (x ∷ ds) d e = ground (arith, id-find id ds d)

-- A driver in the table whose id no earlier row has is the new one.
new-find :
    (t : Tables) (new d : Driver)
    → find_driver (apply t (insert_driver new)) new.id ≡ some d
    → find_driver t d.id ≡ none
    → d ≡ new
new-find t new d e unused =
    let same_id : d.id ≡ new.id = id-find new.id (apply t (insert_driver new)).drivers d e in
    let free : find_driver t new.id ≡ none = subst (λ k. find_driver t k ≡ none) same_id unused in
    let row : some d ≡ some new =
      sym e
      ∙ find-append new.id t.drivers new
      ∙ ap (λ o. case_option o (if new.id == new.id then some new else none) some) free
      ∙ rw (==_self new.id) refl in
    cc row

-- The location is the new one, and all else of `d` but the time of the change is kept.
abbrev pub MovedTo : Env → (lat lng : Float) (d x : Driver) → Type 0
MovedTo env lat lng d x =
    x ≡ record (relocated lat lng (cell_of env lat lng) (zone_of env lat lng) d) {
      last_updated_at = x.last_updated_at;
    }

is_there-relocated :
    (lat lng : Float) (h3_index zone_id : ℕ) (d : Driver)
    → is_there lat lng h3_index zone_id d ≡ true
    → d ≡ record (relocated lat lng h3_index zone_id d) { last_updated_at = d.last_updated_at }
is_there-relocated lat lng h3_index zone_id d h = ground arith

module _ (env : Env) (lat lng : Float) (s : Shared) (d : Driver) where
  abbrev moved_row : Driver → Driver
  moved_row = with_location lat lng (cell_of env lat lng) (zone_of env lat lng) s.clock

  moved-find :
      (x : Driver)
      → find_driver s.db d.id ≡ some d
      → find_driver (moved_tables env lat lng s d) d.id ≡ some x
      → MovedTo env lat lng d x
  moved-find x row e =
      elim (Bool-cases (is_there lat lng (cell_of env lat lng) (zone_of env lat lng) d)) [
        | inl h ↦
            let kept : find_driver s.db d.id ≡ some x = rw h at e in
            let same : d ≡ x = cc in
            subst (MovedTo env lat lng d) same
              (is_there-relocated lat lng (cell_of env lat lng) (zone_of env lat lng) d h)
        | inr h ↦
            let written : some (moved_row d) ≡ some x =
              sym (find_by-modify_self driver_id_of d.id moved_row s.db.drivers d (λ y. refl) row)
              ∙ (rw h at e) in
            let same : moved_row d ≡ x = cc in subst (MovedTo env lat lng d) same refl
      ]

  moved-find_other :
      (j : ℕ)
      → (d.id == j) ≡ false
      → find_driver (moved_tables env lat lng s d) j ≡ find_driver s.db j
  moved-find_other j n =
      elim (Bool-cases (is_there lat lng (cell_of env lat lng) (zone_of env lat lng) d)) [
        | inl h ↦ rw h refl
        | inr h ↦
            rw h
              (find_by-modify_by driver_id_of d.id j moved_row s.db.drivers (λ y. refl) ∙ rw n refl)
      ]

module _ ⦃p : Platform⦄ where
  get_driver_reads :
      (s : Shared) (id : ℕ) (d : Driver)
      → find_driver s.db id ≡ some d
      → (run (get_driver id) (started s)).0 ≡ ok d
  unfolding get_driver DriverRepository.get_by_id run ◌>>=◌
  get_driver_reads s id d e = simp (run_laws, get_driver_fresh s id d e) refl

  read_answer :
      (s t : Tables) (id : ℕ) (d : Driver) (a : Result Driver × World)
      → Refreshed s t id a
      → a.0 ≡ ok d
      → (a.1.shared.db ≡ t) × (find_driver t id ≡ some d)
  read_answer s t id d a (lost w e) h = absurd (cc h)
  read_answer s t id d a (gone w e) h = absurd (cc h)
  read_answer s t id d a (read x w same found) h = (same, found ∙ cc h)

  -- Creating a driver at a location, from a new session: the driver that is answered is available, has
  -- the location with its cell and its zone, and is the one new row; and a later request that reads
  -- its id is answered by the same driver. The new UUID is none that was in use.
  pub create_driver_reads_back :
      (env : Env) (lat lng : Float) (s : Shared) (d : Driver)
      → find_driver s.db d.id ≡ none
      → (run (create_driver env lat lng) (started s)).0 ≡ ok d
      → (at : ℕ) × (d ≡ new_driver env lat lng d.id at)
        × ((run (create_driver env lat lng) (started s)).1.shared.db ≡ apply s.db (insert_driver d))
        × ((run
              (get_driver d.id)
              (started (run (create_driver env lat lng) (started s)).1.shared)).0
            ≡ ok d)
  create_driver_reads_back env lat lng s d unused got =
      let (id, at, refreshed) = create_driver-Refreshed env lat lng s in
      let s' = (run (create_driver env lat lng) (started s)).1.shared in
      let (same, found) =
        read_answer s.db (apply s.db (insert_driver (new_driver env lat lng id at))) id d
          (run (create_driver env lat lng) (started s)) refreshed got in
      let is_new : d ≡ new_driver env lat lng id at =
        new-find s.db (new_driver env lat lng id at) d found unused in
      let same_id : d.id ≡ id = ap (λ (x : Driver). x.id) is_new in
      (
        at,
        is_new ∙ ap (λ k. new_driver env lat lng k at) (sym same_id),
        same ∙ ap (λ (x : Driver). apply s.db (insert_driver x)) (sym is_new),
        get_driver_reads s' d.id d (
            ap (λ (t : Tables). find_driver t d.id) same
            ∙ ap (λ k. find_driver (apply s.db (insert_driver (new_driver env lat lng id at))) k)
                same_id
            ∙ found),
      )

  -- Moving a driver of the table, from a new session: the driver that is answered has the new
  -- location with its cell and its zone, and is otherwise the one that was there, but for the time of
  -- the change; no other driver changes; and a later request that reads the driver is answered the
  -- same. An id that is not in the table is reported as such, and nothing changes.
  pub update_driver_location_reads_back :
      (env : Env) (lat lng : Float) (s : Shared) (d x : Driver)
      → find_driver s.db d.id ≡ some d
      → (run (update_driver_location env d.id lat lng) (started s)).0 ≡ ok x
      → MovedTo env lat lng d x
        × ((j : ℕ)
            → (d.id == j) ≡ false
            → find_driver (run (update_driver_location env d.id lat lng) (started s)).1.shared.db j
              ≡ find_driver s.db j)
        × ((run
              (get_driver d.id)
              (started (run (update_driver_location env d.id lat lng) (started s)).1.shared)).0
            ≡ ok x)
        × ((id : ℕ)
            → find_driver s.db id ≡ none
            → run (update_driver_location env id lat lng) (started s)
              ≡ (err driver_not_found, started s))
  update_driver_location_reads_back env lat lng s d x row got =
      let s' = (run (update_driver_location env d.id lat lng) (started s)).1.shared in
      let (same, found) =
        read_answer s.db (moved_tables env lat lng s d) d.id x
          (run (update_driver_location env d.id lat lng) (started s))
          (update_driver_location-Refreshed env lat lng s d row) got in
      (
        moved-find env lat lng s d x row found,
        λ j n. ap (λ t. find_driver t j) same ∙ moved-find_other env lat lng s d j n,
        get_driver_reads s' d.id x (ap (λ t. find_driver t d.id) same ∙ found),
        update_driver_location-absent env lat lng s,
      )
