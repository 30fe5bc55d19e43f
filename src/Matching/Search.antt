-- ===== src/Matching/Search.antt =====
-- app/matching/candidate_search.py: the drivers that each ring adds.
use realtime_ride_matching_e.Prelude.{
  ◌∙◌, ℕ, zero, suc, ◌+◌, ◌≤◌, ◌≡◌, refl, true, Bool, not, ◌&&◌, List, [], ◌∷◌, ◌++◌, arith,
  contains, select, length, ap, sym, subst, append_nil, length-append,
}
use mathlib.Core.List.{Perm}
use mathlib.Core.List.Perm
use realtime_ride_matching_e.Config.{Env}
use realtime_ride_matching_e.Models.{Driver, available, driver_status_eq}
use realtime_ride_matching_e.Storage.Tables.{driver_id_of}
use realtime_ride_matching_e.Program.State.{Shared, World}
use realtime_ride_matching_e.Program.Commands.{ok, query_drivers}
use realtime_ride_matching_e.Program.Exec.{Platform, run}
use realtime_ride_matching_e.Program.Effects.{put_all, effect}
use realtime_ride_matching_e.Program.Rests.{resting}
use realtime_ride_matching_e.Program.Answers.{surely}
use realtime_ride_matching_e.Repositories.Drivers.{available_in, list_available_in_cells}
use realtime_ride_matching_e.Matching.Geo.{cells_within_ring}
use realtime_ride_matching_e.Matching.Rings.{
  ring_zero, ring_suc, select_cong, select_added, tally, put_all_fresh, as_objects_absent,
  tally-append, tally-select_le, select_added-tally, select_added-length,
}

-- The drivers of a list that are available and at most `k` cells away.
abbrev pub is_near : Env → ℕ → ℕ → Driver → Bool
is_near env cell k d =
    driver_status_eq d.status available && contains d.h3_index (env.grid_disk cell k)

abbrev pub near : Env → ℕ → ℕ → List Driver → List Driver
near env cell k drivers = select (is_near env cell k) drivers

-- The primary key: no two drivers have the same id.
abbrev pub HasUniqueIds : List Driver → Type 0
HasUniqueIds drivers = (id : ℕ) → tally driver_id_of id drivers ≤ 1

-- h3: the disk of radius k + 1 around a cell holds the one of radius k.
abbrev pub IsNested : Env → ℕ → Type 0
IsNested env cell =
    (k c : ℕ)
    → contains c (env.grid_disk cell k) ≡ true
    → contains c (env.grid_disk cell (suc k)) ≡ true

module _ (env : Env) (cell : ℕ) (drivers : List Driver) where
  abbrev pub in_ring : ℕ → List Driver
  in_ring k = select (available_in (cells_within_ring env cell k)) drivers

  -- What the rings before `k` gave, in the order of the rings.
  abbrev pub gathered : ℕ → List Driver
  gathered zero = []
  gathered (suc k) = gathered k ++ in_ring k

  in_ring-zero : in_ring 0 ≡ near env cell 0 drivers
  in_ring-zero = select_cong _ _ drivers (λ d. ground (arith, ring_zero env cell d.h3_index))

  in_ring-suc :
      (k : ℕ)
      → in_ring (suc k)
        ≡ select (λ d. is_near env cell (suc k) d && not (is_near env cell k d)) drivers
  in_ring-suc k = select_cong _ _ drivers (λ d. ground (arith, ring_suc env cell k d.h3_index))

module _ (env : Env) (cell : ℕ) (drivers : List Driver) (nested : IsNested env cell) where
  nearer : (k : ℕ) (d : Driver) → is_near env cell k d ≡ true → is_near env cell (suc k) d ≡ true
  nearer k d = ground (arith, nested k d.h3_index)

  tally-gathered :
      (id k : ℕ)
      → tally driver_id_of id (gathered env cell drivers (suc k))
        ≡ tally driver_id_of id (near env cell k drivers)
  tally-gathered id zero = ap (tally driver_id_of id) (in_ring-zero env cell drivers)
  tally-gathered id (suc k) =
      tally-append driver_id_of id (gathered env cell drivers (suc k))
        (in_ring env cell drivers (suc k))
      ∙ rw (tally-gathered id k, in_ring-suc env cell drivers k)
          (select_added-tally driver_id_of id (is_near env cell k) (is_near env cell (suc k))
            drivers (nearer k))

  pub length-gathered :
      (k : ℕ) → length (gathered env cell drivers (suc k)) ≡ length (near env cell k drivers)
  length-gathered zero = ap length (in_ring-zero env cell drivers)
  length-gathered (suc k) =
      length-append (gathered env cell drivers (suc k)) (in_ring env cell drivers (suc k))
      ∙ rw (length-gathered k, in_ring-suc env cell drivers k)
          (sym (length-append (near env cell k drivers) _)
            ∙ select_added-length (is_near env cell k) (is_near env cell (suc k)) drivers
                (nearer k))

  pub gathered-Perm : (k : ℕ) → Perm (gathered env cell drivers (suc k)) (near env cell k drivers)
  gathered-Perm zero =
      subst (λ ds. Perm ds (near env cell 0 drivers)) (sym (in_ring-zero env cell drivers))
        (Perm.refl (near env cell 0 drivers))
  gathered-Perm (suc k) =
      Perm.trans (Perm.append_right (in_ring env cell drivers (suc k)) (gathered-Perm k)) (
        subst (λ ds. Perm (near env cell k drivers ++ ds) (near env cell (suc k) drivers))
          (sym (in_ring-suc env cell drivers k))
          (select_added (is_near env cell k) (is_near env cell (suc k)) drivers (nearer k)))

  -- A ring brings no driver that is there already.
  pub gathered_fresh :
      HasUniqueIds drivers
      → (k id : ℕ)
      → tally driver_id_of id (gathered env cell drivers k)
          + tally driver_id_of id (in_ring env cell drivers k)
        ≤ 1
  gathered_fresh unique zero id = omega (
    arith,
    unique id,
    tally-select_le driver_id_of id (available_in (cells_within_ring env cell 0)) drivers,
  )
  gathered_fresh unique (suc k) id = omega (
    arith,
    unique id,
    tally-append driver_id_of id (gathered env cell drivers (suc k))
        (in_ring env cell drivers (suc k)),
    tally-gathered id (suc k),
    tally-select_le driver_id_of id (is_near env cell (suc k)) drivers,
  )

module _ ⦃p : Platform⦄ where
  none_available : (drivers : List Driver) → select (available_in []) drivers ≡ []
  none_available [] = refl
  none_available (d ∷ drivers) = ground (arith, none_available drivers)

  -- A query of drivers that the session does not know yet.
  query_fresh :
      (s : Shared) (dm : List Driver) (test : Driver → Bool)
      → ((id : ℕ) → tally driver_id_of id dm + tally driver_id_of id (select test s.db.drivers) ≤ 1)
      → effect (query_drivers test) (resting s dm [])
        ≡ (select test s.db.drivers, resting s (dm ++ select test s.db.drivers) [])
  unfolding effect
  query_fresh s dm test fresh =
      let rows = select test s.db.drivers in
      ap (λ rs. (rs, resting s (put_all driver_id_of dm rs) []))
        (as_objects_absent driver_id_of dm rows fresh)
      ∙ ap (λ ds. (rows, resting s ds [])) (put_all_fresh driver_id_of dm rows fresh)

  pub list_available-run :
      (s : Shared) (dm : List Driver) (cells : List ℕ)
      → ((id : ℕ)
          → tally driver_id_of id dm
              + tally driver_id_of id (select (available_in cells) s.db.drivers)
            ≤ 1)
      → run (list_available_in_cells cells) (resting s dm []) ≡ (
        ok (select (available_in cells) s.db.drivers),
        resting s (dm ++ select (available_in cells) s.db.drivers) [],
      )
  unfolding list_available_in_cells run
  list_available-run s dm [] fresh = rw (none_available s.db.drivers, append_nil dm) refl
  list_available-run s dm (c ∷ cells) fresh =
      ap (λ (a : List Driver × World). (ok a.0, a.1))
        (surely (query_drivers (available_in (c ∷ cells))) (resting s dm []) (λ v. v)
          ∙ query_fresh s dm (available_in (c ∷ cells)) fresh)
