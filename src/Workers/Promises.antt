-- ===== src/Workers/Promises.antt =====
-- What the server promises about rides, however its workers are interleaved and wherever they die.
use realtime_ride_matching_e.Prelude.{
  ℕ, ◌≡◌, ◌∙◌, sym, true, false, some, ◌==◌, Bool-cases, inl, inr, ==_iff, ==_self,
}
use realtime_ride_matching_e.Config.{Env}
use realtime_ride_matching_e.Models.{Ride, is_active}
use realtime_ride_matching_e.Storage.Tables.{find_ride}
use realtime_ride_matching_e.Storage.Constraints.{both_active}
use realtime_ride_matching_e.Storage.Uniqueness.{Compatible, Unique}
use realtime_ride_matching_e.Program.State.{Shared}
use realtime_ride_matching_e.Program.Exec.{Platform}
use realtime_ride_matching_e.Workers.{System, Reach}
use realtime_ride_matching_e.Workers.History.{Lasts, Lasts-Evolves}
use realtime_ride_matching_e.Workers.Refinement.{base-versions}
use realtime_ride_matching_e.Workers.Running.{
  started_system, started_system-IsRunning, Reach-IsRunning, Reach-Advances,
}

not_active_twice :
    (r q : Ride) (d : ℕ)
    → both_active r q ≡ false
    → is_active r.status ≡ true
    → is_active q.status ≡ true
    → r.driver_id ≡ some d
    → q.driver_id ≡ some d
    → ⊥
unfolding both_active
not_active_twice r q d b ra qa rd qd =
    let both : both_active r q ≡ true = rw (both_active, ra, qa, rd, qd) (==_self d) in
    clash (sym both ∙ b)
  where
    clash : true ≡ false → ⊥
    clash e = cc

module _ ⦃p : Platform⦄ (env : Env) (sh : Shared) (start : Unique sh.db.rides) where
  -- From rows that keep the constraints, and after any interleaving of requests, failures and
  -- deaths of workers: two committed active rides that have the same driver are the same ride.
  pub one_active_ride :
      (s : System)
      → Reach env (started_system sh) s
      → (a b d : ℕ) (r q : Ride) → find_ride s.shared.db a ≡ some r
      → find_ride s.shared.db b ≡ some q
      → is_active r.status ≡ true
      → is_active q.status ≡ true
      → r.driver_id ≡ some d
      → q.driver_id ≡ some d
      → a ≡ b
  one_active_ride s reach a b d r q fr fq ra qa rd qd = elim (Bool-cases (a == b)) [
    | inl e ↦ (==_iff a b).0 e
    | inr n ↦
        let c : Compatible r q =
          (Reach-IsRunning env reach (started_system-IsRunning sh start)).consistent.committed a b r
            q n (base-versions s 0 a ∙ fr) (base-versions s 0 b ∙ fq) in
        absurd (not_active_twice r q d c.drivers ra qa rd qd)
  ]

  -- A ride that is committed at some time is there at every later time, with the same
  -- rider, pickup point, zone, idempotency key, price, fare and time of creation; its status has only
  -- moved along the life cycle; once it is no longer requested its driver does not change, and once
  -- it is over nothing of it does.
  pub committed_ride-Lasts :
      (s t : System)
      → Reach env (started_system sh) s
      → Reach env s t
      → (id : ℕ) (r : Ride) → find_ride s.shared.db id ≡ some r
      → (r' : Ride) × (find_ride t.shared.db id ≡ some r') × Lasts r r'
  committed_ride-Lasts s t before after id r found =
      let run = Reach-IsRunning env before (started_system-IsRunning sh start) in
      let (r', there, lasts) =
        Lasts-Evolves r (Reach-Advances env after run id) (base-versions s 0 id ∙ found) in
      (r', sym (base-versions t 0 id) ∙ there, lasts)
