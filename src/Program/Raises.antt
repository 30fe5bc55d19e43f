-- ===== src/Program/Raises.antt =====
-- Which exceptions a program can end in, given what its commands may answer.
use realtime_ride_matching_e.Prelude.{
  ◌≡◌, Bool, true, false, if◌then◌else◌, case_option, Option, none, some, inl, inr, Bool-cases,
  subst, sym, ◌⊎◌, ℕ, List,
}
use realtime_ride_matching_e.Redis.{Lock}
use realtime_ride_matching_e.Storage.Tables.{Assignment}
use realtime_ride_matching_e.Storage.Constraints.{accepts_insert}
use realtime_ride_matching_e.Program.Cases.{
  Updated, absent, missed, refused, written, Committed, failed, done,
}
use realtime_ride_matching_e.Program.Answers.{update_ride-Updated, commit-Committed}
use realtime_ride_matching_e.Models.{RideStatus, Ride}
use realtime_ride_matching_e.Program.State.{World, view}
use realtime_ride_matching_e.Program.Commands.{
  Exn, integrity_error, database_error, redis_connection_error, Result, ok, err, Cmd, Resp,
  add_ride, update_ride, commit, set_nx_px, compare_and_delete, Prog, ret, raise, op, call, lift,
  ◌>>=◌, finally, attempt,
}
use realtime_ride_matching_e.Program.Effects.{
  effect, insert_checked, flushed, redis_call, Unanswered,
}
use realtime_ride_matching_e.Program.Exec.{Platform, exec, run}

-- An SQLAlchemyError, an error of the Redis client.
abbrev pub IsDatabaseError : Exn → Type 0
IsDatabaseError integrity_error = Unit
IsDatabaseError database_error = Unit
IsDatabaseError _ = ⊥

abbrev pub IsRedisError : Exn → Type 0
IsRedisError redis_connection_error = Unit
IsRedisError _ = ⊥

-- A result whose exception, if it is one, is of the kind `E`.
abbrev pub Fails : {A : Type 0} → (Exn → Type 0) → Result A → Type 0
Fails E (ok a) = Unit
Fails E (err e) = E e

-- The failures that a command's answer can report.
abbrev pub MayAnswer : (c : Cmd) → Resp c → Type 0
MayAnswer (add_ride r) x = Fails IsDatabaseError x
MayAnswer (update_ride id from to extra) x = Fails IsDatabaseError x
MayAnswer commit x = Fails IsDatabaseError x
MayAnswer (set_nx_px key token ttl) x = Fails IsRedisError x
MayAnswer (compare_and_delete key token) x = Fails IsRedisError x
MayAnswer _ x = Unit

pub data Raises (E : Exn → Type 0) {A : Type 0} : Prog A → Type 0 where
  gives : (a : A) → Raises E (ret a)
  throws : (e : Exn) → E e → Raises E (raise e)
  asks :
      (c : Cmd) (k : Resp c → Prog A)
      → ((r : Resp c) → MayAnswer c r → Raises E (k r))
      → Raises E (op c k)

module _ {E : Exn → Type 0} where
  -- A command whose result is not a failure, or one whose failure is raised at once.
  pub Raises-call : (c : Cmd) → Raises E (call c)
  Raises-call c = asks c ret (λ r _. gives r)

  pub Raises-bind :
      {A B : Type 0} (m : Prog A) (f : A → Prog B)
      → Raises E m
      → ((a : A) → Raises E (f a))
      → Raises E (m >>= f)
  unfolding ◌>>=◌
  Raises-bind m f (gives a) hf = hf a
  Raises-bind m f (throws e h) hf = throws e h
  Raises-bind m f (asks c k h) hf = asks c _ (λ r q. Raises-bind (k r) f (h r q) hf)

  pub Raises-ask :
      {B : Type 0} (c : Cmd) (f : Resp c → Prog B)
      → ((r : Resp c) → MayAnswer c r → Raises E (f r))
      → Raises E (call c >>= f)
  unfolding ◌>>=◌
  Raises-ask c f h = asks c f h

  -- Fewer exceptions are allowed than `E` has.
  pub Raises-weaken :
      {A : Type 0} (D : Exn → Type 0) (m : Prog A)
      → ((e : Exn) → D e → E e)
      → Raises D m
      → Raises E m
  Raises-weaken D m w (gives a) = gives a
  Raises-weaken D m w (throws e h) = throws e (w e h)
  Raises-weaken D m w (asks c k h) = asks c k (λ r q. Raises-weaken D (k r) w (h r q))

  pub Raises-finally :
      {A : Type 0} (m : Prog A) (cleanup : Prog (Unit {0}))
      → Raises E m
      → Raises E cleanup
      → Raises E (finally m cleanup)
  unfolding finally
  Raises-finally m cleanup (gives a) hc = Raises-bind cleanup (λ _. ret a) hc (λ _. gives a)
  Raises-finally m cleanup (throws e h) hc = Raises-bind cleanup (λ _. raise e) hc (λ _. throws e h)
  Raises-finally m cleanup (asks c k h) hc =
      asks c _ (λ r q. Raises-finally (k r) cleanup (h r q) hc)

  -- The handler sees only what the body can raise.
  pub Raises-attempt :
      {A B : Type 0} (D : Exn → Type 0) (m : Prog A) (handle : Result A → Prog B)
      → Raises D m
      → ((r : Result A) → Fails D r → Raises E (handle r))
      → Raises E (attempt m handle)
  unfolding attempt
  Raises-attempt D m handle (gives a) hh = hh (ok a) tt
  Raises-attempt D m handle (throws e h) hh = hh (err e) h
  Raises-attempt D m handle (asks c k h) hh =
      asks c _ (λ r q. Raises-attempt D (k r) handle (h r q) hh)

  pub Raises-if :
      {A : Type 0} (b : Bool) (m n : Prog A)
      → Raises E m
      → Raises E n
      → Raises E (if b then m else n)
  Raises-if true m n hm hn = hm
  Raises-if false m n hm hn = hn

  pub Raises-option :
      {A B : Type 0} (o : Option A) (m : Prog B) (f : A → Prog B)
      → Raises E m
      → ((a : A) → Raises E (f a))
      → Raises E (case_option o m f)
  Raises-option none m f hm hf = hm
  Raises-option (some a) m f hm hf = hf a

  pub Raises-lift : {A : Type 0} (r : Result A) → Fails E r → Raises E (lift r)
  Raises-lift (ok a) h = gives a
  Raises-lift (err e) h = throws e h

pub ruleset raises_rules = (gives, asks, Raises-bind, Raises-finally, Raises-if, Raises-option)

insert-Fails : (w : World) (r : Ride) → Fails IsDatabaseError (effect (add_ride r) w).0
unfolding effect insert_checked
insert-Fails w r = elim (Bool-cases (accepts_insert (view (flushed w)) r)) [
  | inl e ↦ rw (e, insert_checked) tt
  | inr e ↦ rw (e, insert_checked) tt
]

Updated-Fails :
    (w : World) (id : ℕ) (from : List RideStatus) (to : RideStatus) (extra : Option Assignment)
    (x : Result Bool × World)
    → Updated w id from to extra x
    → Fails IsDatabaseError x.0
Updated-Fails w id from to extra x (absent e) = tt
Updated-Fails w id from to extra x (missed r e s) = tt
Updated-Fails w id from to extra x (refused r e v) = tt
Updated-Fails w id from to extra x (written r e s) = tt

Committed-Fails :
    (w : World) (x : Result (Unit {0}) × World) → Committed w x → Fails IsDatabaseError x.0
Committed-Fails w x failed = tt
Committed-Fails w x done = tt

Unanswered-Fails :
    (w : World) (a : Bool × List Lock) (x : Result Bool × World)
    → (x ≡ redis_call w a) ⊎ Unanswered w a x
    → Fails IsRedisError x.0
Unanswered-Fails w a x (inl e) =
    subst (λ (y : Result Bool × World). Fails IsRedisError y.0) (sym e) tt
Unanswered-Fails w a x (inr (inl e)) =
    subst (λ (y : Result Bool × World). Fails IsRedisError y.0) (sym e) tt
Unanswered-Fails w a x (inr (inr e)) =
    subst (λ (y : Result Bool × World). Fails IsRedisError y.0) (sym e) tt

module _ ⦃p : Platform⦄ where
  exec-MayAnswer : (c : Cmd) (w : World) → MayAnswer c (exec c w).0
  unfolding effect
  exec-MayAnswer (add_ride r) w = elim (p.documented (add_ride r) w) [
    | inl e ↦
        subst (λ (y : Result (Unit {0}) × World). Fails IsDatabaseError y.0) (sym e)
          (insert-Fails w r)
    | inr v ↦ absurd v
  ]
  exec-MayAnswer (update_ride id from to extra) w =
      Updated-Fails w id from to extra (exec (update_ride id from to extra) w)
        (update_ride-Updated w id from to extra)
  exec-MayAnswer commit w = Committed-Fails w (exec commit w) (commit-Committed w)
  exec-MayAnswer (set_nx_px key token ttl) w =
      Unanswered-Fails w _ (exec (set_nx_px key token ttl) w)
        (p.documented (set_nx_px key token ttl) w)
  exec-MayAnswer (compare_and_delete key token) w =
      Unanswered-Fails w _ (exec (compare_and_delete key token) w)
        (p.documented (compare_and_delete key token) w)
  exec-MayAnswer _ w = tt

  -- A run ends in no other exception.
  pub run-Fails :
      {E : Exn → Type 0} {A : Type 0} (m : Prog A) (w : World) → Raises E m → Fails E (run m w).0
  unfolding run
  run-Fails m w (gives a) = tt
  run-Fails m w (throws e h) = h
  run-Fails m w (asks c k h) =
      run-Fails (k (exec c w).0) (exec c w).1 (h (exec c w).0 (exec-MayAnswer c w))
