-- ===== src/Api/Rides/Recording.antt =====
-- What POST /rides makes of the outcome of match_ride: app/api/rides.py.
use realtime_ride_matching_e.Prelude.{ℕ, ◌-◌, ◌≡◌, refl, ◌∙◌}
use realtime_ride_matching_e.Config.{Env}
use realtime_ride_matching_e.Models.{Ride}
use realtime_ride_matching_e.Observability.Metrics.{
  Outcome, matched, unmatched, error, record_outcome,
}
use realtime_ride_matching_e.Program.State.{World}
use realtime_ride_matching_e.Program.Commands.{
  Result, ok, err, no_available_driver, Prog, attempt, ◌>>=◌, ret, raise,
}
use realtime_ride_matching_e.Program.Exec.{Platform, run}
use realtime_ride_matching_e.Program.Laws.{run-attempt, run_laws}
use realtime_ride_matching_e.Program.Cases.{attempted}
use realtime_ride_matching_e.Program.Answers.{now-later, record_attempt_lem}
use realtime_ride_matching_e.Matching.Matcher.{match_ride}
use realtime_ride_matching_e.Api.Rides.{record_since, after_match}

-- The answer to the client, and the outcome that is counted.
abbrev pub answered : Ride → Result Ride → Result Ride
answered ride (ok r) = ok r
answered ride (err no_available_driver) = ok ride
answered ride (err e) = err e

abbrev pub outcome_of : Result Ride → Outcome
outcome_of (ok r) = matched
outcome_of (err no_available_driver) = unmatched
outcome_of (err e) = error

-- One attempt was counted, and the tables were left alone.
pub record Recorded (start : ℕ) (o : Outcome) (w w' : World) : Type 0 where
  pub stop : ℕ
  pub metrics : w'.shared.metrics ≡ record_outcome w.shared.metrics o (stop - start) stop
  pub db : w'.shared.db ≡ w.shared.db

module _ ⦃p : Platform⦄ where
  record_since-Recorded :
      {A : Type 0} (start : ℕ) (o : Outcome) (m : Prog A) (w : World)
      → (stop : ℕ) × (run (record_since start o >>= λ _. m) w
          ≡ run m (attempted w o (stop - start) stop))
  unfolding ◌>>=◌ record_outcome
  record_since-Recorded start o m w =
      let (stop, later, e) = now-later w in (stop, simp (run_laws, e, record_attempt_lem) refl)

  recorded :
      (start : ℕ) (o : Outcome) (m : Prog Ride) (x : Result Ride) (w : World)
      → ((v : World) → run m v ≡ (x, v))
      → ((run (record_since start o >>= λ _. m) w).0 ≡ x)
        × Recorded start o w (run (record_since start o >>= λ _. m) w).1
  recorded start o m x w h =
      let (stop, e) = record_since-Recorded start o m w in
      rw (e ∙ h (attempted w o (stop - start) stop))
        (refl, record { stop = stop; metrics = refl; db = refl })

  handled :
      (ride : Ride) (start : ℕ) (r : Result Ride) (w : World)
      → ((run (after_match ride start r) w).0 ≡ answered ride r)
        × Recorded start (outcome_of r) w (run (after_match ride start r) w).1
  unfolding run
  handled ride start (ok r) w = recorded start matched (ret r) (ok r) w (λ v. refl)
  handled ride start (err no_available_driver) w =
      recorded start unmatched (ret ride) (ok ride) w (λ v. refl)
  handled ride start (err e) w = recorded start error (raise e) (err e) w (λ v. refl)

  -- After any outcome of match_ride: a matched ride is the answer, a ride for which no driver was found
  -- is the answer as it was, and any other exception goes on to the client. In each case exactly one
  -- attempt is counted, under its own outcome, and no table changes any more.
  pub after_match-Recorded :
      (env : Env) (ride : Ride) (start : ℕ) (w : World)
      → ((run (attempt (match_ride env ride) (after_match ride start)) w).0
          ≡ answered ride (run (match_ride env ride) w).0)
        × Recorded start
            (outcome_of (run (match_ride env ride) w).0)
            (run (match_ride env ride) w).1
            (run (attempt (match_ride env ride) (after_match ride start)) w).1
  after_match-Recorded env ride start w =
      rw (run-attempt (match_ride env ride) (after_match ride start) w)
        (handled ride start (run (match_ride env ride) w).0 (run (match_ride env ride) w).1)
