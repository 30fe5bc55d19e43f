-- ===== src/Program/Rests.antt =====
-- Between transactions: no statement is open and the tables are known.
use realtime_ride_matching_e.Prelude.{inl, inr, ◌≡◌, true, false, List, [], arith}
use realtime_ride_matching_e.Models.{Driver, Ride}
use realtime_ride_matching_e.Storage.Tables.{Tables}
use realtime_ride_matching_e.Program.State.{Shared, World}
use realtime_ride_matching_e.Program.Commands.{
  Cmd, get_driver, get_ride, refresh_ride, query_drivers, query_rides, count_drivers, count_rides,
  distinct_zones, rollback, set_nx_px, compare_and_delete, uuid4, now, emit, record_attempt,
  record_lock_contention, Prog,
}
use realtime_ride_matching_e.Program.Exec.{Platform, exec, run}
use realtime_ride_matching_e.Program.Effects.{effect, Varies}
use realtime_ride_matching_e.Program.Commands.{commit, refresh_rider, Resp}
use realtime_ride_matching_e.Program.Issues.{Issues, by_ret, by_raise, by_op}

-- No transaction is open, and the committed tables are `t`.
pub record Rests (t : Tables) (w : World) : Type 0 where
  pub db : w.shared.db ≡ t
  pub writes : w.session.writes ≡ []
  pub dirty : w.session.dirty ≡ []

abbrev pub resting : Shared → List Driver → List Ride → World
resting s drivers rides = record {
  shared = s;
  session = record { driver_map = drivers; ride_map = rides; dirty = []; writes = [] };
}

pub resting_of_Rests :
    {t : Tables} (w : World)
    → Rests t w
    → w ≡ resting w.shared w.session.driver_map w.session.ride_map
resting_of_Rests w h = cc (h.writes, h.dirty)

-- Commands that write to no table.
abbrev pub IsReading : Cmd → Type 0
IsReading (get_driver id fresh) = Unit
IsReading (get_ride id) = Unit
IsReading (refresh_ride id) = Unit
IsReading (refresh_rider id) = Unit
IsReading (query_drivers p) = Unit
IsReading (query_rides p) = Unit
IsReading (count_drivers p) = Unit
IsReading (count_rides p) = Unit
IsReading (distinct_zones p) = Unit
IsReading rollback = Unit
IsReading (set_nx_px key token ttl) = Unit
IsReading (compare_and_delete key token) = Unit
IsReading uuid4 = Unit
IsReading now = Unit
IsReading (emit e) = Unit
IsReading (record_attempt o l) = Unit
IsReading record_lock_contention = Unit
IsReading _ = ⊥

effect-Rests : (t : Tables) (c : Cmd) (w : World) → IsReading c → Rests t w → Rests t (effect c w).1
unfolding effect
effect-Rests t (get_driver id true) w q h = ground (arith, h)
effect-Rests t (get_driver id false) w q h = ground (arith, h)
effect-Rests t _ w q h = ground (arith, h)

Varies-Rests :
    (t : Tables) (c : Cmd) (w : World) (a : Resp c × World)
    → IsReading c
    → Varies c w a
    → Rests t w
    → Rests t a.1
Varies-Rests t (set_nx_px key token ttl) w a q v h = ground (arith, h)
Varies-Rests t (compare_and_delete key token) w a q v h = ground (arith, h)
Varies-Rests t uuid4 w a q v h = ground (arith, h)
Varies-Rests t now w a q v h = ground (arith, h)
Varies-Rests t commit w a q v h = absurd q
Varies-Rests t _ w a q v h = absurd v

module _ ⦃p : Platform⦄ where
  exec-Rests : (t : Tables) (c : Cmd) (w : World) → IsReading c → Rests t w → Rests t (exec c w).1
  exec-Rests t c w q h = elim (p.documented c w) [
    | inl e ↦ rw e (effect-Rests t c w q h)
    | inr v ↦ Varies-Rests t c w (exec c w) q v h
  ]

  pub run-Rests :
      {A : Type 0} (t : Tables) (m : Prog A) (w : World)
      → Issues IsReading m
      → Rests t w
      → Rests t (run m w).1
  unfolding run
  run-Rests t m w (by_ret a) h = h
  run-Rests t m w (by_raise e) h = h
  run-Rests t m w (by_op c k q i) h =
      run-Rests t (k (exec c w).0) (exec c w).1 (i (exec c w).0) (exec-Rests t c w q h)
