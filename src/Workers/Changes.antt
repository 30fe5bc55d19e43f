-- ===== src/Workers/Changes.antt =====
-- What one command can do to the rows of `rides`, for its own session and for all.
use realtime_ride_matching_e.Prelude.{
  ℕ, ◌≡◌, refl, ◌∙◌, true, false, ◌&&◌, Option, some, List, [], ◌∷◌, ◌++◌, ◌==◌, All, find_by,
  Bool-cases, Option-cases, inl, inr, ap, append_assoc,
}
use realtime_ride_matching_e.Models.{
  Driver, DriverStatus, Ride, RideStatus, status_in, driver_status_eq,
}
use realtime_ride_matching_e.Floats.{Float}
use realtime_ride_matching_e.Storage.Tables.{
  Tables, Write, Assignment, insert_driver, insert_rider, insert_ride, set_driver_status,
  set_driver_location, set_ride_status, replay, find_ride, find_driver, ride_id_of, driver_id_of,
  with_ride_status,
}
use realtime_ride_matching_e.Storage.Constraints.{violates_unique, id_taken, accepts_insert}
use realtime_ride_matching_e.Storage.Replay.{replay-append}
use realtime_ride_matching_e.Program.State.{World, fresh_session, view}
use realtime_ride_matching_e.Program.Commands.{
  Cmd, get_driver, get_ride, refresh_ride, refresh_rider, query_drivers, query_rides, count_drivers,
  count_rides, distinct_zones, add_driver, add_rider, add_ride, assign_driver_status,
  assign_driver_location, flush, update_ride, commit, rollback, set_nx_px, compare_and_delete,
  uuid4, now, emit, record_attempt, record_lock_contention, Resp,
}
use realtime_ride_matching_e.Program.Effects.{
  load_driver, load_ride, flushed, set_status, set_location, insert_checked, update_checked,
  on_object, effect, Varies,
}
use realtime_ride_matching_e.Program.Exec.{Platform, exec}
use realtime_ride_matching_e.Program.Kept.{All-append, accepts_id, accepts_unique}
use realtime_ride_matching_e.Workers.{touches}
use realtime_ride_matching_e.Workers.Rows.{row_after, row_after-untouched}

-- A write of another table.
abbrev pub LeavesRides : Write → Type 0
LeavesRides (insert_ride r) = ⊥
LeavesRides (set_ride_status id st a at) = ⊥
LeavesRides _ = Unit

pub leaves-touches : (ws : List Write) (id : ℕ) → All LeavesRides ws → touches id ws ≡ false
leaves-touches [] id h = refl
leaves-touches (insert_ride r ∷ ws) id h = absurd h.0
leaves-touches (set_ride_status k st a at ∷ ws) id h = absurd h.0
leaves-touches (insert_driver d ∷ ws) id h = leaves-touches ws id h.1
leaves-touches (insert_rider d ∷ ws) id h = leaves-touches ws id h.1
leaves-touches (set_driver_status k st at ∷ ws) id h = leaves-touches ws id h.1
leaves-touches (set_driver_location k lat lng c z at ∷ ws) id h = leaves-touches ws id h.1

pub leaves-replay :
    (ws : List Write) (t : Tables) → All LeavesRides ws → (replay ws t).rides ≡ t.rides
leaves-replay [] t h = refl
leaves-replay (insert_ride r ∷ ws) t h = absurd h.0
leaves-replay (set_ride_status k st a at ∷ ws) t h = absurd h.0
leaves-replay (insert_driver d ∷ ws) t h = leaves-replay ws _ h.1
leaves-replay (insert_rider d ∷ ws) t h = leaves-replay ws _ h.1
leaves-replay (set_driver_status k st at ∷ ws) t h = leaves-replay ws _ h.1
leaves-replay (set_driver_location k lat lng c z at ∷ ws) t h = leaves-replay ws _ h.1

-- The unflushed changes of a session.
abbrev pub IsQuiet : World → Type 0
IsQuiet w = All LeavesRides w.session.dirty

abbrev pub SameDb : World → World → Type 0
SameDb w w' = w'.shared.db ≡ w.shared.db

pub data Changes (w : World) (c : Cmd) (w' : World) : Type 0 where
  rests : SameDb w w' → w'.session.writes ≡ w.session.writes → IsQuiet w' → Changes w c w'
  flushes :
      (ws : List Write)
      → All LeavesRides ws
      → SameDb w w'
      → w'.session.writes ≡ w.session.writes ++ ws
      → IsQuiet w'
      → Changes w c w'
  inserts :
      (r : Ride) (ws : List Write)
      → c ≡ add_ride r
      → All LeavesRides ws
      → SameDb w w'
      → w'.session.writes ≡ (w.session.writes ++ ws) ++ insert_ride r ∷ []
      → IsQuiet w'
      → id_taken (view w).rides r ≡ false
      → violates_unique (view w).rides r ≡ false
      → Changes w c w'
  updates :
      (id : ℕ) (from : List RideStatus) (to : RideStatus) (extra : Option Assignment) (r : Ride)
      → c ≡ update_ride id from to extra
      → find_ride (view w) id ≡ some r
      → status_in r.status from ≡ true
      → violates_unique (view w).rides (with_ride_status to extra w.shared.clock r) ≡ false
      → SameDb w w'
      → w'.session.writes ≡ w.session.writes ++ set_ride_status id to extra w.shared.clock ∷ []
      → IsQuiet w'
      → Changes w c w'
  commits :
      (ds : List Write)
      → All LeavesRides ds
      → w'.shared.db ≡ replay ds (view w)
      → w'.session ≡ fresh_session
      → Changes w c w'
  rolls_back : SameDb w w' → w'.session ≡ fresh_session → Changes w c w'

load_driver-Changes : (w : World) (c : Cmd) (id : ℕ) → IsQuiet w → Changes w c (load_driver w id).1
unfolding load_driver
load_driver-Changes w c id h = elim (Option-cases (find_driver (view w) id)) [
  | inl e ↦ rw (e, load_driver) (rests refl refl h)
  | inr (d, e) ↦ rw (e, load_driver) (rests refl refl h)
]

load_ride-Changes : (w : World) (c : Cmd) (id : ℕ) → IsQuiet w → Changes w c (load_ride w id).1
unfolding load_ride
load_ride-Changes w c id h = elim (Option-cases (find_ride (view w) id)) [
  | inl e ↦ rw (e, load_ride) (rests refl refl h)
  | inr (d, e) ↦ rw (e, load_ride) (rests refl refl h)
]

insert-Changes : (w : World) (r : Ride) → IsQuiet w → Changes w (add_ride r) (insert_checked w r).1
unfolding insert_checked flushed
insert-Changes w r h = elim (Bool-cases (accepts_insert (view (flushed w)) r)) [
  | inl e ↦
      let same : (view (flushed w)).rides ≡ (view w).rides =
        ap (λ (t : Tables). t.rides) (replay-append w.session.writes w.session.dirty w.shared.db)
        ∙ leaves-replay w.session.dirty (view w) h in
      rw (e, insert_checked)
        (inserts r w.session.dirty refl h refl refl tt
          (rw same at (accepts_id (view (flushed w)) r e))
          (rw same at (accepts_unique (view (flushed w)) r e)))
  | inr e ↦ rw (e, insert_checked) (flushes w.session.dirty h refl refl tt)
]

update-Changes :
    (w : World) (id : ℕ) (from : List RideStatus) (to : RideStatus) (extra : Option Assignment)
    → IsQuiet w
    → Changes w (update_ride id from to extra) (update_checked w id from to extra).1
unfolding update_checked
update-Changes w id from to extra h = elim (Option-cases (find_ride (view w) id)) [
  | inl e ↦ rw (e, update_checked) (rests refl refl h)
  | inr (r, e) ↦ elim (Bool-cases (status_in r.status from)) [
    | inr s ↦ rw (e, update_checked) (rw s (rests refl refl h))
    | inl s ↦
        elim (Bool-cases
          (violates_unique (view w).rides (with_ride_status to extra w.shared.clock r))) [
            | inl v ↦ rw (e, update_checked) (rw (s, v) (rests refl refl h))
            | inr v ↦
                rw (e, update_checked)
                  (rw (s, v) (updates id from to extra r refl e s v refl refl h))
          ]
  ]
]

set_status-Changes :
    (w : World) (c : Cmd) (id : ℕ) (st : DriverStatus) (d : Driver)
    → IsQuiet w
    → Changes w c (set_status w id st d)
unfolding set_status
set_status-Changes w c id st d h = elim (Bool-cases (driver_status_eq d.status st)) [
  | inl e ↦ rw e (rests refl refl h)
  | inr e ↦ rw e (rests refl refl (All-append LeavesRides w.session.dirty _ h (tt, tt)))
]

set_location-Changes :
    (w : World) (c : Cmd) (id : ℕ) (lat lng : Float) (cell zone : ℕ) (d : Driver)
    → IsQuiet w
    → Changes w c (set_location w id lat lng cell zone d)
unfolding set_location
set_location-Changes w c id lat lng cell zone d h =
    elim (Bool-cases (
      (d.current_lat == lat && d.current_lng == lng)
      && (d.h3_index == cell && d.zone_id == zone))) [
        | inl e ↦ rw e (rests refl refl h)
        | inr e ↦ rw e (rests refl refl (All-append LeavesRides w.session.dirty _ h (tt, tt)))
      ]

on_object-Changes :
    (w : World) (c : Cmd) (id : ℕ) (f : Driver → World)
    → IsQuiet w
    → ((d : Driver) → Changes w c (f d))
    → Changes w c (on_object w id f)
on_object-Changes w c id f h k =
    elim (Option-cases (find_by driver_id_of id w.session.driver_map)) [
      | inl e ↦ rw (e, on_object) (rests refl refl h)
      | inr (d, e) ↦ rw (e, on_object) (k d)
    ]

effect-Changes : (c : Cmd) (w : World) → IsQuiet w → Changes w c (effect c w).1
unfolding effect flushed
effect-Changes (get_driver id true) w h = load_driver-Changes w _ id h
effect-Changes (get_driver id false) w h =
    elim (Option-cases (find_by driver_id_of id w.session.driver_map)) [
      | inl e ↦ rw (e, effect) (load_driver-Changes w _ id h)
      | inr (d, e) ↦ rw (e, effect) (rests refl refl h)
    ]
effect-Changes (get_ride id) w h = elim (Option-cases (find_by ride_id_of id w.session.ride_map)) [
  | inl e ↦ rw (e, effect) (load_ride-Changes w _ id h)
  | inr (d, e) ↦ rw (e, effect) (rests refl refl h)
]
effect-Changes (refresh_ride id) w h = load_ride-Changes w _ id h
effect-Changes (add_driver d) w h =
    flushes (w.session.dirty ++ insert_driver d ∷ [])
      (All-append LeavesRides w.session.dirty _ h (tt, tt)) refl
      (append_assoc w.session.writes w.session.dirty _) tt
effect-Changes (add_rider r) w h =
    flushes (w.session.dirty ++ insert_rider r ∷ [])
      (All-append LeavesRides w.session.dirty _ h (tt, tt)) refl
      (append_assoc w.session.writes w.session.dirty _) tt
effect-Changes (add_ride r) w h = insert-Changes w r h
effect-Changes (assign_driver_status id st) w h =
    on_object-Changes w _ id _ h (λ d. set_status-Changes w _ id st d h)
effect-Changes (assign_driver_location id lat lng cell zone) w h =
    on_object-Changes w _ id _ h (λ d. set_location-Changes w _ id lat lng cell zone d h)
effect-Changes flush w h = flushes w.session.dirty h refl refl tt
effect-Changes (update_ride id from to extra) w h = update-Changes w id from to extra h
effect-Changes commit w h = commits w.session.dirty h refl refl
effect-Changes rollback w h = rolls_back refl refl
effect-Changes (refresh_rider id) w h = rests refl refl h
effect-Changes (query_drivers p) w h = rests refl refl h
effect-Changes (query_rides p) w h = rests refl refl h
effect-Changes (count_drivers p) w h = rests refl refl h
effect-Changes (count_rides p) w h = rests refl refl h
effect-Changes (distinct_zones p) w h = rests refl refl h
effect-Changes (set_nx_px key token ttl) w h = rests refl refl h
effect-Changes (compare_and_delete key token) w h = rests refl refl h
effect-Changes uuid4 w h = rests refl refl h
effect-Changes now w h = rests refl refl h
effect-Changes (emit e) w h = rests refl refl h
effect-Changes (record_attempt o l) w h = rests refl refl h
effect-Changes record_lock_contention w h = rests refl refl h

Varies-Changes :
    (c : Cmd) (w : World) (a : Resp c × World) → Varies c w a → IsQuiet w → Changes w c a.1
Varies-Changes commit w a v h = rw v (rolls_back refl refl)
Varies-Changes (set_nx_px key token ttl) w a (inl v) h = rw v (rests refl refl h)
Varies-Changes (set_nx_px key token ttl) w a (inr v) h = rw v (rests refl refl h)
Varies-Changes (compare_and_delete key token) w a (inl v) h = rw v (rests refl refl h)
Varies-Changes (compare_and_delete key token) w a (inr v) h = rw v (rests refl refl h)
Varies-Changes uuid4 w a (id, v) h = rw v (rests refl refl h)
Varies-Changes now w a (at, later, v) h = rw v (rests refl refl h)
Varies-Changes _ w a v h = absurd v

-- Every command changes `rides` in one of these ways only, also where the platform fails.
pub exec-Changes : ⦃p : Platform⦄ (c : Cmd) (w : World) → IsQuiet w → Changes w c (exec c w).1
exec-Changes ⦃p⦄ c w h = elim (p.documented c w) [
  | inl e ↦ rw e (effect-Changes c w h)
  | inr v ↦ Varies-Changes c w (exec c w) v h
]

pub Changes-IsQuiet : {w w' : World} {c : Cmd} → Changes w c w' → IsQuiet w'
Changes-IsQuiet (rests d s q) = q
Changes-IsQuiet (flushes ws l d s q) = q
Changes-IsQuiet (inserts r ws e l d s q i v) = q
Changes-IsQuiet (updates id from to extra r e f st v d s q) = q
Changes-IsQuiet (commits ds l d s) = rw s tt
Changes-IsQuiet (rolls_back d s) = rw s tt

pub leaves-row_after :
    (ws : List Write) (id : ℕ) (o : Option Ride) → All LeavesRides ws → row_after ws id o ≡ o
leaves-row_after ws id o l = row_after-untouched ws id o (leaves-touches ws id l)
