-- ===== src/Workers/Running.antt =====
-- The system from its start: it keeps running, step by step.
use realtime_ride_matching_e.Prelude.{
  ℕ, ◌≡◌, refl, sym, subst, false, none, some, List, [], ◌∷◌, ◌==◌, arith, All, find_by, Bool-cases,
  inl, inr, ap, ==_self,
}
use realtime_ride_matching_e.Config.{Env}
use realtime_ride_matching_e.Models.{Ride}
use realtime_ride_matching_e.Storage.Tables.{ride_id_of}
use realtime_ride_matching_e.Storage.Uniqueness.{Compatible, Compatible-symm, Unique}
use realtime_ride_matching_e.Program.State.{Shared, fresh_session}
use realtime_ride_matching_e.Program.Commands.{Cmd, Resp, rollback, Prog, op}
use realtime_ride_matching_e.Program.Exec.{Platform, exec}
use realtime_ride_matching_e.Program.Issues.{Issues, by_ret, by_op}
use realtime_ride_matching_e.Lifecycle.{IsLawful}
use realtime_ride_matching_e.Workers.{
  System, Worker, world_of, set_worker, Proceeds, Step, takes, calls, stops, Reach, here, next,
  idle,
}
use realtime_ride_matching_e.Workers.Versions.{RowStep}
use realtime_ride_matching_e.Workers.Consistency.{Distinct, RowStep-IsConsistent}
use realtime_ride_matching_e.Workers.History.{unchanged, Evolves-trans}
use realtime_ride_matching_e.Workers.Tracing.{Advances, RowStep-IsTraced}
use realtime_ride_matching_e.Workers.Changes.{
  IsQuiet, Changes, rolls_back, exec-Changes, Changes-IsQuiet,
}
use realtime_ride_matching_e.Workers.Refinement.{versions}
use realtime_ride_matching_e.Workers.Turns.{TurnOf}
use realtime_ride_matching_e.Workers.Requests.{IsRequest-IsLawful}
use realtime_ride_matching_e.Workers.Steps.{IsRunning, turn-step}

-- What is left of a program after one call.
rest-IsLawful :
    {A : Type 0} {c : Cmd} {k : Resp c → Prog A}
    → Issues IsLawful (op c k)
    → IsLawful c × ((r : Resp c) → Issues IsLawful (k r))
rest-IsLawful (by_op c k q h) = (q, h)

-- One worker is in a new state, and so is what all share.
module _ (s : System) (i : ℕ) (sh : Shared) (w : Worker) where
  abbrev after_turn : System
  after_turn = record { shared = sh; workers = set_worker s.workers i w }

  set_same : set_worker s.workers i w i ≡ w
  set_same = rw (==_self i)

  set_other : (j : ℕ) → (j == i) ≡ false → set_worker s.workers i w j ≡ s.workers j
  set_other j n = rw n

  -- A property of each worker.
  each_worker {ℓ} :
      (P : Worker → Type ℓ) → P w → ((j : ℕ) → P (s.workers j)) → (j : ℕ) → P (after_turn.workers j)
  each_worker P pw ps j = elim (Bool-cases (j == i)) [
    | inl e ↦ subst P (sym (rw e)) pw
    | inr n ↦ subst P (sym (set_other j n)) (ps j)
  ]

  turn-IsRunning :
      (c : Cmd)
      → Changes (world_of s i) c (record { shared = sh; session = w.session })
      → IsLawful c
      → Proceeds s i c
      → Issues IsLawful w.program
      → IsRunning s
      → RowStep (versions s) (versions after_turn) × IsRunning after_turn
  turn-IsRunning c ch lawful go left run =
      let turn : TurnOf s after_turn i = λ j n. ap (λ (x : Worker). x.session) (set_other j n) in
      let ch' : Changes (world_of s i) c (world_of after_turn i) =
        subst
          (λ (x : Worker). Changes (world_of s i) c (record { shared = sh; session = x.session }))
          (sym set_same) ch in
      let (st, present) = turn-step s after_turn i turn run c ch' lawful go in
      (
        st,
        record {
          quiet =
              each_worker (λ x. IsQuiet (record { shared = sh; session = x.session }))
                (Changes-IsQuiet ch) run.quiet;
          lawful = each_worker (λ x. Issues IsLawful x.program) left run.lawful;
          present = present;
          consistent = RowStep-IsConsistent st run.consistent;
          traced = (RowStep-IsTraced st run.consistent run.traced).0;
        },
      )

module _ ⦃p : Platform⦄ (env : Env) where
  -- Every step of the running system, a request that is taken, a call of a worker or its end, is
  -- one step on the versions of rows, and the system keeps running.
  pub Step-RowStep :
      {s s' : System}
      → Step env s s'
      → IsRunning s
      → RowStep (versions s) (versions s') × IsRunning s'
  Step-RowStep (takes s i m q) run =
      turn-IsRunning s i s.shared (record { session = fresh_session; program = m }) rollback
        (rolls_back refl refl) tt tt (IsRequest-IsLawful env q) run
  Step-RowStep (stops s i) run =
      turn-IsRunning s i s.shared idle rollback (rolls_back refl refl) tt tt (by_ret tt) run
  Step-RowStep (calls s i c k e go) run =
      let (lawful, left) = rest-IsLawful (subst (Issues IsLawful) e (run.lawful i)) in
      let (r, w) = exec c (world_of s i) in
      turn-IsRunning s i w.shared (record { session = w.session; program = k r }) c
        (exec-Changes c (world_of s i) (run.quiet i)) lawful go (left r) run

  pub Reach-IsRunning : {s s' : System} → Reach env s s' → IsRunning s → IsRunning s'
  Reach-IsRunning here run = run
  Reach-IsRunning (next r st) run = (Step-RowStep st (Reach-IsRunning r run)).1

  pub Reach-Advances :
      {s s' : System} → Reach env s s' → IsRunning s → Advances (versions s) (versions s')
  Reach-Advances here run id = unchanged
  Reach-Advances (next r st) run id =
      let before = Reach-IsRunning r run in
      Evolves-trans (Reach-Advances r run id)
        ((RowStep-IsTraced (Step-RowStep st before).0 before.consistent before.traced).1 id)

-- The server as it starts: nobody has a request.
abbrev pub started_system : Shared → System
started_system sh = record { shared = sh; workers = λ _. idle }

beside-All :
    (r q : Ride) (b : ℕ) (rs : List Ride)
    → All (Compatible r) rs
    → find_by ride_id_of b rs ≡ some q
    → Compatible r q
beside-All r q b [] c found = cc
beside-All r q b (x ∷ rs) c found = elim (Bool-cases (x.id == b)) [
  | inl e ↦ subst (Compatible r) (the_same (rw e at found)) c.0
  | inr n ↦ beside-All r q b rs c.1 (rw n at found)
]
  where
    the_same : {x y : Ride} → some x ≡ some y → x ≡ y
    the_same e = cc

Distinct-of_Unique : (rs : List Ride) → Unique rs → Distinct (λ a. find_by ride_id_of a rs)
Distinct-of_Unique [] u a b r q n h k = cc
Distinct-of_Unique (x ∷ rs) u a b r q n h k = elim (Bool-cases (x.id == a)) [
  | inl e ↦
      let far : (x.id == b) ≡ false = ground arith in
      subst (λ y. Compatible y q) (the_same (rw e at h)) (beside-All x q b rs u.0 (rw far at k))
  | inr m ↦ elim (Bool-cases (x.id == b)) [
    | inl e ↦
        subst (Compatible r) (the_same (rw e at k))
          (Compatible-symm (beside-All x r a rs u.0 (rw m at h)))
    | inr l ↦ Distinct-of_Unique rs u.1 a b r q n (rw m at h) (rw l at k)
  ]
]
  where
    the_same : {x y : Ride} → some x ≡ some y → x ≡ y
    the_same e = cc

-- Committed rows that keep the constraints are all that a start needs.
pub started_system-IsRunning : (sh : Shared) → Unique sh.db.rides → IsRunning (started_system sh)
unfolding versions
started_system-IsRunning sh u =
    let d = Distinct-of_Unique sh.db.rides u in
    record {
      quiet = λ _. tt;
      lawful = λ _. by_ret tt;
      present = λ i id e. cc;
      consistent = record {
        committed = d;
        visible = λ i. d;
        apart = λ i j id r n h. refl;
        cross = λ i j a b r q n h k. cc;
      };
      traced = λ i id r h. absurd (never h);
    }
  where
    never : {r : Ride} → none ≡ some r → ⊥
    never e = cc
