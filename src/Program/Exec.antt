-- ===== src/Program/Exec.antt =====
-- What the code runs on, as a parameter, and the run of a program to its end.
use realtime_ride_matching_e.Prelude.{◌≡◌, ◌⊎◌}
use realtime_ride_matching_e.Program.State.{World}
use realtime_ride_matching_e.Program.Commands.{Cmd, Resp, Result, ok, err, Prog, ret, raise, op}
use realtime_ride_matching_e.Program.Effects.{effect, Varies}

-- The database with its session, Redis and the runtime: they answer every command, as documented.
pub record Platform : Type 0 where
  pub answer : (c : Cmd) → World → Resp c × World
  pub documented : (c : Cmd) (w : World) → (answer c w ≡ effect c w) ⊎ Varies c w (answer c w)

abbrev pub exec : ⦃p : Platform⦄ (c : Cmd) → World → Resp c × World
exec ⦃p⦄ c w = p.answer c w

-- One worker alone, to the end of its program.
unfoldable pub run : ⦃p : Platform⦄ {A : Type 0} → Prog A → World → Result A × World
run (ret a) w = (ok a, w)
run (raise e) w = (err e, w)
run (op c k) w = let (r, w') = exec c w in run (k r) w'
