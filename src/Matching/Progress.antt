-- ===== src/Matching/Progress.antt =====
-- match_ride matches where nothing stands against it.
use realtime_ride_matching_e.Prelude.{
  ℕ, ◌≤◌, ◌≡◌, refl, sym, subst, ◌∙◌, ap, true, false, none, some, List, ◌∷◌, inl, inr, arith,
  Option-cases, length,
}
use realtime_ride_matching_e.Config.{Env}
use realtime_ride_matching_e.Models.{Driver, available, Ride, requested, matched, ride_status_eq}
use realtime_ride_matching_e.Storage.Tables.{Tables, with_ride_status, find_driver, find_ride}
use realtime_ride_matching_e.Storage.Constraints.{violates_unique}
use realtime_ride_matching_e.Redis.{Lock, holder}
use realtime_ride_matching_e.Redis.Laws.{holder_mono}
use realtime_ride_matching_e.Observability.Events.{Event, candidates_found}
use realtime_ride_matching_e.Program.State.{World}
use realtime_ride_matching_e.Program.Commands.{Result, ok, err, Prog, call, ◌>>=◌, emit}
use realtime_ride_matching_e.Program.Exec.{Platform, run}
use realtime_ride_matching_e.Program.Laws.{run-bind, then_run, run_laws}
use realtime_ride_matching_e.Program.Cases.{published}
use realtime_ride_matching_e.Program.Answers.{emit_lem}
use realtime_ride_matching_e.Program.Rests.{Rests, resting_of_Rests, run-Rests}
use realtime_ride_matching_e.Program.LockFree.{run-SameLocks}
use realtime_ride_matching_e.Matching.Reading.{find_ranked_candidates-IsReading}
use realtime_ride_matching_e.Matching.LockFree.{find_ranked_candidates-IsLockFree}
use realtime_ride_matching_e.Matching.Ranking.{Candidate}
use realtime_ride_matching_e.Matching.CandidateSearch.{find_ranked_candidates}
use realtime_ride_matching_e.Matching.Matcher.{lock_key, try_candidates, match_ride}
use realtime_ride_matching_e.Matching.Locking.{Answers}
use realtime_ride_matching_e.Matching.Success.{Commits, assignment, Ends, try_resting-Ends}

-- A key that is free stays free while nobody takes it.
free_later :
    (clock later key : ℕ) (locks locks' : List Lock)
    → clock ≤ later
    → locks' ≡ locks
    → holder clock key locks ≡ none
    → holder later key locks' ≡ none
free_later clock later key locks locks' le same free =
    elim (Option-cases (holder later key locks')) [
      | inl e ↦ e
      | inr (t, e) ↦ absurd (
          cc (
            free,
            holder_mono clock later key t locks le
                (subst (λ l. holder later key l ≡ some t) same e),
          ))
    ]

then_run-emit :
    ⦃p : Platform⦄ {A B : Type 0} (a : Result A × World) (f : A → Event) (g : A → Prog B) (x : A)
    → a.0 ≡ ok x
    → then_run a (λ y. call (emit (f y)) >>= λ _. g y) ≡ run (g x) (published a.1 (f x))
then_run-emit (ok y, w) f g x e =
    simp (run_laws, emit_lem) (ap (λ z. run (g z) (published w (f z))) (cc e))
then_run-emit (err ex, w) f g x e = absurd (cc e)

-- The search and its report come first.
match_ride_after_search :
    ⦃p : Platform⦄ (env : Env) (ride : Ride) (w : World) (cs : List Candidate) (r : Ride)
    → ride_status_eq ride.status requested ≡ true
    → (run (find_ranked_candidates env ride.pickup_lat ride.pickup_lng) w).0 ≡ ok cs
    → (run (try_candidates env ride cs) (
        published
          (run (find_ranked_candidates env ride.pickup_lat ride.pickup_lng) w).1
          (candidates_found ride.id (length cs)))).0
      ≡ ok r
    → (run (match_ride env ride) w).0 ≡ ok r
unfolding match_ride
match_ride_after_search env ride w cs r asked got e =
    let m = find_ranked_candidates env ride.pickup_lat ride.pickup_lng in
    rw asked (
      ap (λ (a : Result Ride × World). a.0)
        (run-bind m
            (λ ranked. call (emit (candidates_found ride.id (length ranked))) >>= λ _.
              try_candidates env ride ranked)
            w
          ∙ then_run-emit (run m w) (λ ranked. candidates_found ride.id (length ranked))
              (try_candidates env ride) cs got)
      ∙ e)

-- From a session at rest, while Redis answers and commits go through: if the ride is requested, the
-- nearest candidate is available and its key free, and no unique index stands against the assignment,
-- then match_ride returns the ride with that candidate's driver.
pub match_ride_succeeds :
    ⦃p : Platform⦄ (answers : Answers) (commits : Commits) (env : Env) (ride : Ride) (w : World)
    (c : Candidate) (cs : List Candidate) (b : Ride) (d : Driver)
    → Rests w.shared.db w
    → ride.status ≡ requested
    → (run (find_ranked_candidates env ride.pickup_lat ride.pickup_lng) w).0 ≡ ok (c ∷ cs)
    → find_ride w.shared.db ride.id ≡ some b
    → b.status ≡ requested
    → find_driver w.shared.db c.driver.id ≡ some d
    → d.status ≡ available
    → ((at : ℕ)
        → violates_unique w.shared.db.rides (with_ride_status matched (some (assignment d at)) at b)
          ≡ false)
    → holder w.shared.clock (lock_key c.driver.id) w.shared.locks ≡ none
    → (r : Ride) × ((run (match_ride env ride) w).0 ≡ ok r) × (r.driver_id ≡ some d.id)
match_ride_succeeds answers commits env ride w c cs b d rests asked got found waiting there free
      allowed nolock =
    let m = find_ranked_candidates env ride.pickup_lat ride.pickup_lng in
    let w1 = (run m w).1 in
    let rests1 =
      run-Rests w.shared.db m w
        (find_ranked_candidates-IsReading env ride.pickup_lat ride.pickup_lng) rests in
    let same =
      run-SameLocks m w (find_ranked_candidates-IsLockFree env ride.pickup_lat ride.pickup_lng) in
    let w2 = published w1 (candidates_found ride.id (length (c ∷ cs))) in
    let at_rest : Rests w2.shared.db w2 = record {
      db = refl;
      writes = rests1.writes;
      dirty = rests1.dirty;
    } in
    let ends : Ends (try_candidates env ride (c ∷ cs)) d w2 =
      subst (λ v. Ends (try_candidates env ride (c ∷ cs)) d v) (sym (resting_of_Rests w2 at_rest))
        (try_resting-Ends answers commits env ride c cs w2.shared w2.session.driver_map
          w2.session.ride_map b d (ap (λ (t : Tables). find_ride t ride.id) rests1.db ∙ found)
          waiting (ap (λ (t : Tables). find_driver t c.driver.id) rests1.db ∙ there) free
          (λ at.
            ap
              (λ (t : Tables).
                violates_unique t.rides (with_ride_status matched (some (assignment d at)) at b))
              rests1.db
            ∙ allowed at)
          (free_later w.shared.clock w1.shared.clock (lock_key c.driver.id) w.shared.locks
            w1.shared.locks same.clock same.locks nolock)) in
    let is_asked : ride_status_eq ride.status requested ≡ true = ground (arith, asked) in
    (
      ends.ride,
      match_ride_after_search env ride w (c ∷ cs) ends.ride is_asked got ends.result,
      ends.driver,
    )
