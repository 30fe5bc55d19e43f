-- ===== src/Program/Laws.antt =====
-- How runs compose.
use realtime_ride_matching_e.Prelude.{◌≡◌, refl, ◌∙◌, ap, fun_ext}
use realtime_ride_matching_e.Program.Commands.{
  Exn, Cmd, Resp, Result, ok, err, Prog, ret, raise, op, call, ◌>>=◌, finally, attempt,
}
use realtime_ride_matching_e.Program.State.{World}
use realtime_ride_matching_e.Program.Exec.{Platform, exec, run}

abbrev pub after_cleanup : {A : Type 0} → Result A → Result (Unit {0}) × World → Result A × World
after_cleanup r (ok u, w) = (r, w)
after_cleanup r (err e, w) = (err e, w)

module _ ⦃p : Platform⦄ where
  abbrev pub then_run : {A B : Type 0} → Result A × World → (A → Prog B) → Result B × World
  then_run (ok a, w) f = run (f a) w
  then_run (err e, w) f = (err e, w)

  -- A bind runs its first part, then the rest from the world that this left.
  pub run-bind :
      {A B : Type 0} (m : Prog A) (f : A → Prog B) (w : World)
      → run (m >>= f) w ≡ then_run (run m w) f
  unfolding run ◌>>=◌
  run-bind (ret a) f w = refl
  run-bind (raise e) f w = refl
  run-bind (op c k) f w = run-bind (k (exec c w).0) f (exec c w).1

  then_ret :
      {A : Type 0} (a : A) (r : Result (Unit {0})) (w : World)
      → then_run (r, w) (λ _. ret a) ≡ after_cleanup (ok a) (r, w)
  unfolding run
  then_ret a (ok u) w = refl
  then_ret a (err e) w = refl

  then_raise :
      {A : Type 0} (e : Exn) (r : Result (Unit {0})) (w : World)
      → then_run {B = A} (r, w) (λ _. raise e) ≡ after_cleanup (err e) (r, w)
  unfolding run
  then_raise e (ok u) w = refl
  then_raise e (err e') w = refl

  -- The cleanup runs once, after the body, however that ends.
  pub run-finally :
      {A : Type 0} (m : Prog A) (cleanup : Prog (Unit {0})) (w : World)
      → run (finally m cleanup) w ≡ after_cleanup (run m w).0 (run cleanup (run m w).1)
  unfolding run finally
  run-finally (ret a) cleanup w =
      run-bind cleanup (λ _. ret a) w ∙ then_ret a (run cleanup w).0 (run cleanup w).1
  run-finally (raise e) cleanup w =
      run-bind cleanup (λ _. raise e) w ∙ then_raise e (run cleanup w).0 (run cleanup w).1
  run-finally (op c k) cleanup w = run-finally (k (exec c w).0) cleanup (exec c w).1

  pub run-attempt :
      {A B : Type 0} (m : Prog A) (handle : Result A → Prog B) (w : World)
      → run (attempt m handle) w ≡ run (handle (run m w).0) (run m w).1
  unfolding run attempt
  run-attempt (ret a) handle w = refl
  run-attempt (raise e) handle w = refl
  run-attempt (op c k) handle w = run-attempt (k (exec c w).0) handle (exec c w).1

  pub bind_assoc :
      {A B C : Type 0} (m : Prog A) (f : A → Prog B) (g : B → Prog C)
      → (m >>= f >>= g) ≡ (m >>= λ a. f a >>= g)
  unfolding ◌>>=◌
  bind_assoc (ret a) f g = refl
  bind_assoc (raise e) f g = refl
  bind_assoc (op c k) f g = ap (op c) (fun_ext (λ r. bind_assoc (k r) f g))

  -- One step of a run, for `rw` and `simp` with `run` shut.
  pub run-ret : {A : Type 0} (a : A) (w : World) → run (ret a) w ≡ (ok a, w)
  unfolding run
  run-ret a w = refl

  pub run-raise : {A : Type 0} (e : Exn) (w : World) → run {A = A} (raise e) w ≡ (err e, w)
  unfolding run
  run-raise e w = refl

  module _ {A B : Type 0} where
    pub run-ret_bind : (a : A) (f : A → Prog B) (w : World) → run (ret a >>= f) w ≡ run (f a) w
    unfolding run ◌>>=◌
    run-ret_bind a f w = refl

    pub run-raise_bind :
        (e : Exn) (f : A → Prog B) (w : World) → run (◌>>=◌ {A = A} (raise e) f) w ≡ (err e, w)
    unfolding run ◌>>=◌
    run-raise_bind e f w = refl

  pub run-call_bind :
      {B : Type 0} (c : Cmd) (f : Resp c → Prog B) (w : World)
      → run (call c >>= f) w ≡ run (f (exec c w).0) (exec c w).1
  unfolding run ◌>>=◌
  run-call_bind c f w = refl

  pub run-call : (c : Cmd) (w : World) → run (call c) w ≡ (ok (exec c w).0, (exec c w).1)
  unfolding run
  run-call c w = refl

pub ruleset run_laws =
    (bind_assoc, run-ret_bind, run-raise_bind, run-call_bind, run-ret, run-raise, run-call)
