-- ===== src/Program/Issues.antt =====
-- Which commands a program can ever issue, whatever the answers to them.
use realtime_ride_matching_e.Prelude.{
  Bool, true, false, if◌then◌else◌, case_option, Option, none, some,
}
use realtime_ride_matching_e.Program.Commands.{
  Exn, Result, ok, err, Cmd, Resp, Prog, ret, raise, op, call, lift, ◌>>=◌, finally, attempt,
}

pub data Issues (Q : Cmd → Type 0) {A : Type 0} : Prog A → Type 0 where
  by_ret : (a : A) → Issues Q (ret a)
  by_raise : (e : Exn) → Issues Q (raise e)
  by_op :
      (c : Cmd) (k : Resp c → Prog A) → Q c → ((r : Resp c) → Issues Q (k r)) → Issues Q (op c k)

module _ {Q : Cmd → Type 0} where
  pub Issues-call : (c : Cmd) → Q c → Issues Q (call c)
  Issues-call c h = by_op c ret h (λ r. by_ret r)

  pub Issues-bind :
      {A B : Type 0} (m : Prog A) (f : A → Prog B)
      → Issues Q m
      → ((a : A) → Issues Q (f a))
      → Issues Q (m >>= f)
  unfolding ◌>>=◌
  Issues-bind m f (by_ret a) hf = hf a
  Issues-bind m f (by_raise e) hf = by_raise e
  Issues-bind m f (by_op c k q h) hf = by_op c _ q (λ r. Issues-bind (k r) f (h r) hf)

  pub Issues-finally :
      {A : Type 0} (m : Prog A) (cleanup : Prog (Unit {0}))
      → Issues Q m
      → Issues Q cleanup
      → Issues Q (finally m cleanup)
  unfolding finally
  Issues-finally m cleanup (by_ret a) hc = Issues-bind cleanup (λ _. ret a) hc (λ _. by_ret a)
  Issues-finally m cleanup (by_raise e) hc = Issues-bind cleanup (λ _. raise e) hc (λ _. by_raise e)
  Issues-finally m cleanup (by_op c k q h) hc =
      by_op c _ q (λ r. Issues-finally (k r) cleanup (h r) hc)

  pub Issues-attempt :
      {A B : Type 0} (m : Prog A) (handle : Result A → Prog B)
      → Issues Q m
      → ((r : Result A) → Issues Q (handle r))
      → Issues Q (attempt m handle)
  unfolding attempt
  Issues-attempt m handle (by_ret a) hh = hh (ok a)
  Issues-attempt m handle (by_raise e) hh = hh (err e)
  Issues-attempt m handle (by_op c k q h) hh =
      by_op c _ q (λ r. Issues-attempt (k r) handle (h r) hh)

  pub Issues-if :
      {A : Type 0} (b : Bool) (m n : Prog A)
      → Issues Q m
      → Issues Q n
      → Issues Q (if b then m else n)
  Issues-if true m n hm hn = hm
  Issues-if false m n hm hn = hn

  pub Issues-option :
      {A B : Type 0} (o : Option A) (m : Prog B) (f : A → Prog B)
      → Issues Q m
      → ((a : A) → Issues Q (f a))
      → Issues Q (case_option o m f)
  Issues-option none m f hm hf = hm
  Issues-option (some a) m f hm hf = hf a

  pub Issues-lift : {A : Type 0} (r : Result A) → Issues Q (lift r)
  Issues-lift (ok a) = by_ret a
  Issues-lift (err e) = by_raise e

pub ruleset issues_rules = (
  by_ret, by_raise, by_op, Issues-call, Issues-bind, Issues-finally, Issues-attempt, Issues-if,
  Issues-option, Issues-lift,
)
