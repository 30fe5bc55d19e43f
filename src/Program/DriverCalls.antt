-- ===== src/Program/DriverCalls.antt =====
-- The answers to the commands on drivers in a new session.
use realtime_ride_matching_e.Prelude.{
  refl, ℕ, ◌≡◌, ap, ◌∙◌, Bool, true, false, ◌&&◌, none, some, [], ◌∷◌, ◌==◌, ==_self, find_by,
}
use realtime_ride_matching_e.Floats.{Float}
use realtime_ride_matching_e.Models.{Driver}
use realtime_ride_matching_e.Storage.Tables.{
  insert_driver, set_driver_location, find_driver, driver_id_of,
}
use realtime_ride_matching_e.Program.State.{Shared, World}
use realtime_ride_matching_e.Program.Commands.{
  get_driver, add_driver, assign_driver_location, flush,
}
use realtime_ride_matching_e.Program.Exec.{Platform, exec}
use realtime_ride_matching_e.Program.Effects.{effect, set_location, flushed}
use realtime_ride_matching_e.Program.Cases.{
  started, loaded_driver, load_driver_found, load_driver_missing, on_object_found,
}
use realtime_ride_matching_e.Program.Answers.{surely}

-- A new driver is in the open transaction.
abbrev pub adding : Shared → Driver → World
adding s d = record {
  shared = s;
  session = record {
    driver_map = d ∷ [];
    ride_map = [];
    dirty = [];
    writes = insert_driver d ∷ [];
  };
}

-- The driver `d` was loaded, and is moved.
abbrev pub relocated : (lat lng : Float) (h3_index zone_id : ℕ) → Driver → Driver
relocated lat lng h3_index zone_id d = record d {
  current_lat = lat;
  current_lng = lng;
  h3_index = h3_index;
  zone_id = zone_id;
}

abbrev pub is_there : (lat lng : Float) (h3_index zone_id : ℕ) → Driver → Bool
is_there lat lng h3_index zone_id d =
    (d.current_lat == lat && d.current_lng == lng)
    && (d.h3_index == h3_index && d.zone_id == zone_id)

abbrev pub moving : Shared → (lat lng : Float) (h3_index zone_id : ℕ) → Driver → World
moving s lat lng h3_index zone_id d = record {
  shared = s;
  session = record {
    driver_map = relocated lat lng h3_index zone_id d ∷ [];
    ride_map = [];
    dirty = set_driver_location d.id lat lng h3_index zone_id s.clock ∷ [];
    writes = [];
  };
}

pub alone : (d : Driver) → find_by driver_id_of d.id (d ∷ []) ≡ some d
alone d = rw (==_self d.id) refl

module _ ⦃p : Platform⦄ where
  pub add_driver_fresh :
      (s : Shared) (d : Driver) → exec (add_driver d) (started s) ≡ (tt, adding s d)
  unfolding effect flushed
  add_driver_fresh s d = surely (add_driver d) (started s) (λ v. v)

  pub get_driver_fresh :
      (s : Shared) (id : ℕ) (d : Driver)
      → find_driver s.db id ≡ some d
      → exec (get_driver id false) (started s) ≡ (some d, loaded_driver (started s) d)
  unfolding effect
  get_driver_fresh s id d e =
      surely (get_driver id false) (started s) (λ v. v) ∙ load_driver_found (started s) id d e

  pub get_driver_absent :
      (s : Shared) (id : ℕ)
      → find_driver s.db id ≡ none
      → exec (get_driver id false) (started s) ≡ (none, started s)
  unfolding effect
  get_driver_absent s id e =
      surely (get_driver id false) (started s) (λ v. v) ∙ load_driver_missing (started s) id e

  -- An object of the map is returned as it is.
  pub get_driver_mapped :
      (w : World) (id : ℕ) (d : Driver)
      → find_by driver_id_of id w.session.driver_map ≡ some d
      → exec (get_driver id false) w ≡ (some d, w)
  unfolding effect
  get_driver_mapped w id d e = surely (get_driver id false) w (λ v. v) ∙ rw (e, effect) refl

  pub assign_location_moves :
      (s : Shared) (lat lng : Float) (h3_index zone_id : ℕ) (d : Driver)
      → is_there lat lng h3_index zone_id d ≡ false
      → exec (assign_driver_location d.id lat lng h3_index zone_id) (loaded_driver (started s) d)
        ≡ (tt, moving s lat lng h3_index zone_id d)
  unfolding effect set_location
  assign_location_moves s lat lng h3_index zone_id d e =
      surely (assign_driver_location d.id lat lng h3_index zone_id) (loaded_driver (started s) d)
        (λ v. v)
      ∙ ap (λ (v : World). (tt, v))
          (on_object_found (loaded_driver (started s) d) d.id d
              (set_location (loaded_driver (started s) d) d.id lat lng h3_index zone_id) (alone d)
            ∙ rw e (rw (==_self d.id) refl))

  pub assign_location_rests :
      (s : Shared) (lat lng : Float) (h3_index zone_id : ℕ) (d : Driver)
      → is_there lat lng h3_index zone_id d ≡ true
      → exec (assign_driver_location d.id lat lng h3_index zone_id) (loaded_driver (started s) d)
        ≡ (tt, loaded_driver (started s) d)
  unfolding effect set_location
  assign_location_rests s lat lng h3_index zone_id d e =
      surely (assign_driver_location d.id lat lng h3_index zone_id) (loaded_driver (started s) d)
        (λ v. v)
      ∙ ap (λ (v : World). (tt, v))
          (on_object_found (loaded_driver (started s) d) d.id d
              (set_location (loaded_driver (started s) d) d.id lat lng h3_index zone_id) (alone d)
            ∙ rw e refl)

  pub flush_lem : (w : World) → exec flush w ≡ (tt, flushed w)
  unfolding effect
  flush_lem w = surely flush w (λ v. v)
