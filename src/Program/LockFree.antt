-- ===== src/Program/LockFree.antt =====
-- Programs that do not call Redis leave its keys alone.
use realtime_ride_matching_e.Prelude.{inl, inr, ◌≤◌, ◌≡◌, refl, true, false, arith, ◌∙◌}
use realtime_ride_matching_e.Program.State.{World}
use realtime_ride_matching_e.Program.Commands.{
  commit, uuid4, now, Resp, Cmd, get_driver, set_nx_px, compare_and_delete, Prog,
}
use realtime_ride_matching_e.Program.Exec.{Platform, exec, run}
use realtime_ride_matching_e.Program.Effects.{effect, flushed, Varies}
use realtime_ride_matching_e.Program.Issues.{Issues, by_ret, by_raise, by_op}

abbrev pub IsLockFree : Cmd → Type 0
IsLockFree (set_nx_px key token ttl) = ⊥
IsLockFree (compare_and_delete key token) = ⊥
IsLockFree _ = Unit

pub record SameLocks (w w' : World) : Type 0 where
  pub locks : w'.shared.locks ≡ w.shared.locks
  pub clock : w.shared.clock ≤ w'.shared.clock

effect-SameLocks : (c : Cmd) (w : World) → IsLockFree c → SameLocks w (effect c w).1
unfolding effect flushed
effect-SameLocks (get_driver id true) w q = ground arith
effect-SameLocks (get_driver id false) w q = ground arith
effect-SameLocks (set_nx_px key token ttl) w q = absurd q
effect-SameLocks (compare_and_delete key token) w q = absurd q
effect-SameLocks _ w q = ground arith

Varies-SameLocks :
    (c : Cmd) (w : World) (a : Resp c × World) → IsLockFree c → Varies c w a → SameLocks w a.1
Varies-SameLocks (set_nx_px key token ttl) w a q v = absurd q
Varies-SameLocks (compare_and_delete key token) w a q v = absurd q
Varies-SameLocks commit w a q v = ground arith
Varies-SameLocks uuid4 w a q v = ground arith
Varies-SameLocks now w a q v = ground arith
Varies-SameLocks _ w a q v = absurd v

module _ ⦃p : Platform⦄ where
  exec-SameLocks : (c : Cmd) (w : World) → IsLockFree c → SameLocks w (exec c w).1
  exec-SameLocks c w q = elim (p.documented c w) [
    | inl e ↦ rw e (effect-SameLocks c w q)
    | inr v ↦ Varies-SameLocks c w (exec c w) q v
  ]

  pub run-SameLocks :
      {A : Type 0} (m : Prog A) (w : World) → Issues IsLockFree m → SameLocks w (run m w).1
  unfolding run
  run-SameLocks m w (by_ret a) = record { locks = refl; clock = omega arith }
  run-SameLocks m w (by_raise e) = record { locks = refl; clock = omega arith }
  run-SameLocks m w (by_op c k q h) =
      let first = exec-SameLocks c w q in
      let rest = run-SameLocks (k (exec c w).0) (exec c w).1 (h (exec c w).0) in
      record { locks = rest.locks ∙ first.locks; clock = omega arith }
