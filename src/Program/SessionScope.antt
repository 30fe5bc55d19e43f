-- ===== src/Program/SessionScope.antt =====
-- app/storage/database.py: session_scope, the transaction round a block of code outside the routes.
-- Opening and closing the session is left to the caller: the block runs in the session that is there.
use realtime_ride_matching_e.Prelude.{◌≡◌, sym, subst, ◌∙◌, ap}
use realtime_ride_matching_e.Program.State.{World, fresh_session}
use realtime_ride_matching_e.Program.Commands.{
  Exn, database_error, Result, ok, err, Prog, ret, raise, call, lift, ◌>>=◌, ◌>>◌, attempt, commit,
  rollback,
}
use realtime_ride_matching_e.Program.Exec.{Platform, exec, run}
use realtime_ride_matching_e.Program.Effects.{committed_world, failed_world}
use realtime_ride_matching_e.Program.Laws.{run-attempt, run-bind, then_run}
use realtime_ride_matching_e.Program.Cases.{Committed, failed, done}
use realtime_ride_matching_e.Program.Answers.{commit-Committed, rollback_lem}

-- except Exception: db.rollback(); raise
abbrev pub or_roll_back : {A : Type 0} → Result A → Prog A
or_roll_back (ok a) = ret a
or_roll_back (err e) = do call rollback; raise e

-- db.commit() after the block
abbrev pub then_commit : {A : Type 0} → A → Prog A
then_commit a = do committed ← call commit; lift committed; ret a

unfoldable pub session_scope : {A : Type 0} → Prog A → Prog A
session_scope block = attempt (do a ← block; then_commit a) or_roll_back

abbrev pub rolled_back : World → World
rolled_back w = record w { session = fresh_session }

-- What becomes of the outcome of the block.
pub data Scoped {A : Type 0} : Result A × World → Result A × World → Type 0 where
  raised : (e : Exn) (w : World) → Scoped (err e, w) (err e, rolled_back w)
  lost : (a : A) (w : World) → Scoped (ok a, w) (err database_error, rolled_back (failed_world w))
  kept : (a : A) (w : World) → Scoped (ok a, w) (ok a, committed_world w)

module _ ⦃p : Platform⦄ {A : Type 0} where
  roll_back_run :
      (e : Exn) (w : World) → run (or_roll_back {A = A} (err e)) w ≡ (err e, rolled_back w)
  unfolding run ◌>>=◌
  roll_back_run e w = ap (λ (x : Unit {0} × World). (err e, x.1)) (rollback_lem w)

  -- The whole of the scope after the block's outcome.
  abbrev closing : Result A × World → Result A × World
  closing b = let c = then_run b then_commit in run (or_roll_back c.0) c.1

  commit-Scoped :
      (a : A) (w : World) (x : Result (Unit {0}) × World)
      → Committed w x
      → Scoped
          (ok a, w)
          (run (or_roll_back (run (lift x.0 >> ret a) x.1).0) (run (lift x.0 >> ret a) x.1).1)
  unfolding run ◌>>=◌
  commit-Scoped a w x failed =
      subst (λ (v : World). Scoped (ok a, w) (err database_error, v))
        (sym (ap (λ (y : Unit {0} × World). y.1) (rollback_lem (failed_world w)))) (lost a w)
  commit-Scoped a w x done = kept a w

  closing-Scoped : (b : Result A × World) → Scoped b (closing b)
  unfolding run ◌>>=◌
  closing-Scoped (ok a, w) = commit-Scoped a w (exec commit w) (commit-Committed w)
  closing-Scoped (err e, w) = subst (Scoped (err e, w)) (sym (roll_back_run e w)) (raised e w)

  -- After a block that raises, the same exception leaves the scope and its transaction is rolled
  -- back; after one that returns, its transaction is committed and its result returned, unless the
  -- commit fails, when nothing of the transaction is kept. In every case the session is empty.
  pub session_scope-Scoped :
      (block : Prog A) (w : World) → Scoped (run block w) (run (session_scope block) w)
  unfolding session_scope
  session_scope-Scoped block w =
      let scope : run (session_scope block) w ≡ closing (run block w) =
        run-attempt (block >>= then_commit) or_roll_back w
        ∙ ap (λ (x : Result A × World). run (or_roll_back x.0) x.1)
            (run-bind block then_commit w) in
      subst (Scoped (run block w)) (sym scope) (closing-Scoped (run block w))
