-- ===== src/Matching/Correctness.antt =====
-- Every way in which match_ride ends.
use realtime_ride_matching_e.Prelude.{
  Bool, ◌⊎◌, ℕ, ◌≡◌, refl, sym, subst, ◌∙◌, not, Option, none, some, List, [], ◌∷◌, inl, inr,
  case_option, Bool-cases, length,
}
use realtime_ride_matching_e.Config.{Env}
use realtime_ride_matching_e.Models.{Ride, requested, ride_status_eq}
use realtime_ride_matching_e.Storage.Tables.{Tables}
use realtime_ride_matching_e.Observability.Events.{
  Event, lock_acquired, lock_failed, candidates_found,
}
use realtime_ride_matching_e.Program.State.{World}
use realtime_ride_matching_e.Program.Commands.{
  compare_and_delete, lift, Exn, Result, ok, err, value_error, no_available_driver,
  redis_connection_error, Prog, ret, raise, call, ◌>>=◌, finally, emit, record_lock_contention,
}
use realtime_ride_matching_e.Program.Exec.{Platform, exec, run}
use realtime_ride_matching_e.Program.Effects.{effect, Varies}
use realtime_ride_matching_e.Program.Laws.{run-bind, run-finally, then_run, after_cleanup}
use realtime_ride_matching_e.Program.Issues.{issues_rules}
use realtime_ride_matching_e.Program.Rests.{Rests, run-Rests}
use realtime_ride_matching_e.Matching.Reading.{
  IsReadingProg, find_ranked_candidates-IsReading, acquire_lock-IsReading, translate-IsReading,
}
use realtime_ride_matching_e.Matching.Ranking.{Candidate}
use realtime_ride_matching_e.Matching.DriverLock.{release_lock}
use realtime_ride_matching_e.Matching.Matcher.{
  lock_key, assign_candidate, try_candidates, match_ride,
}
use realtime_ride_matching_e.Matching.Outcome.{
  Assigned, CandidateOutcome, skipped, assigned, raised, assign_candidate-CandidateOutcome,
}

-- A returned ride was assigned by one commit. An exception leaves the tables as they were, but for
-- that of a release that fails after the commit.
pub data Matched (t : Tables) (id : ℕ) : Result Ride × World → Type 0 where
  returned : {w : World} (r : Ride) → Assigned t id r w.shared.db → Matched t id (ok r, w)
  unchanged : {w : World} (e : Exn) → w.shared.db ≡ t → Matched t id (err e, w)
  unreleased :
      {w : World} (r : Ride)
      → Assigned t id r w.shared.db
      → Matched t id (err redis_connection_error, w)

abbrev give_back : ℕ → ℕ → Prog (Unit {0})
give_back key token = release_lock key token >>= λ _. ret tt

-- The release changes no table, and raises a connection error or nothing.
data Released (w : World) : Result (Unit {0}) × World → Type 0 where
  quietly :
      {w' : World}
      → w'.shared.db ≡ w.shared.db
      → w'.session.writes ≡ w.session.writes
      → w'.session.dirty ≡ w.session.dirty
      → Released w (ok tt, w')
  loudly : {w' : World} → w'.shared.db ≡ w.shared.db → Released w (err redis_connection_error, w')

module _ ⦃p : Platform⦄ where
  reply-Released :
      (key token : ℕ) (w : World) (a : Result Bool × World)
      → (a ≡ effect (compare_and_delete key token) w) ⊎ Varies (compare_and_delete key token) w a
      → Released w (run (lift a.0 >>= λ _. ret tt) a.1)
  unfolding run ◌>>=◌ effect
  reply-Released key token w a (inl e) = rw e (quietly refl refl refl)
  reply-Released key token w a (inr (inl e)) = rw e (loudly refl)
  reply-Released key token w a (inr (inr e)) = rw e (loudly refl)

  give_back-Released : (key token : ℕ) (w : World) → Released w (run (give_back key token) w)
  unfolding release_lock run ◌>>=◌
  give_back-Released key token w =
      reply-Released key token w (exec (compare_and_delete key token) w)
        (p.documented (compare_and_delete key token) w)

-- A program that matches, from any world at rest over `t`.
record Matches ⦃p : Platform⦄ (t : Tables) (id : ℕ) (m : Prog Ride) : Type 0 where
  from_rest : (w : World) → Rests t w → Matched t id (run m w)

-- Reading first changes nothing.
module _ ⦃p : Platform⦄ (t : Tables) (id : ℕ) where
  then_run-Matched :
      {A : Type 0} (p : Result A × World) (f : A → Prog Ride)
      → Rests t p.1
      → ((a : A) → Matches t id (f a))
      → Matched t id (then_run p f)
  then_run-Matched (ok a, w) f h hf = (hf a).from_rest w h
  then_run-Matched (err e, w) f h hf = unchanged e h.db

  Matches-bind :
      {A : Type 0} (m : Prog A) (f : A → Prog Ride)
      → IsReadingProg m
      → ((a : A) → Matches t id (f a))
      → Matches t id (m >>= f)
  Matches-bind m f hm hf = record {
    from_rest = λ w h. rw (run-bind m f w) (then_run-Matched (run m w) f (run-Rests t m w hm h) hf);
  }

  Matches-raise : (e : Exn) → Matches t id (raise e)
  unfolding run
  Matches-raise e = record { from_rest = λ w h. unchanged e h.db }

  -- The locked body, its release, and the next candidate where it continued.
  finished :
      (p : Result (Option Ride) × World) (q : Result (Unit {0}) × World) (next : Prog Ride)
      → CandidateOutcome t id p
      → Released p.1 q
      → Matches t id next
      → Matched t id (then_run (after_cleanup p.0 q) (λ assigned. case_option assigned next ret))
  unfolding run
  finished p q next (skipped h) (quietly d s y) hn =
      hn.from_rest _ (record { db = d ∙ h.db; writes = s ∙ h.writes; dirty = y ∙ h.dirty })
  finished p q next (skipped h) (loudly d) hn = unchanged redis_connection_error (d ∙ h.db)
  finished p q next (assigned r a) (quietly d s y) hn =
      returned r (subst (Assigned t id r) (sym d) a)
  finished p q next (assigned r a) (loudly d) hn = unreleased r (subst (Assigned t id r) (sym d) a)
  finished p q next (raised e h) (quietly d s y) hn = unchanged e (d ∙ h)
  finished p q next (raised e h) (loudly d) hn = unchanged redis_connection_error (d ∙ h)

  -- The locked part of one candidate.
  Matches-locked :
      (e : Event) (ride : Ride) (c : Candidate) (key token : ℕ) (next : Prog Ride)
      → ride.id ≡ id
      → Matches t id next
      → Matches t id (
          call (emit e) >>= λ _.
          finally (assign_candidate ride c) (give_back key token) >>= λ assigned.
          case_option assigned next ret)
  Matches-locked e ride c key token next same hn =
      Matches-bind (call (emit e)) _ (search issues_rules) (λ _. record {
        from_rest = λ w h.
            let body = run (assign_candidate ride c) w in
            let o : CandidateOutcome t id body =
              subst (λ i. CandidateOutcome t i body) same
                (assign_candidate-CandidateOutcome t w ride c h) in
            rw
              (
                run-bind (finally (assign_candidate ride c) (give_back key token))
                    (λ assigned. case_option assigned next ret) w,
                run-finally (assign_candidate ride c) (give_back key token) w,
              )
              (finished body (run (give_back key token) body.1) next o
                (give_back-Released key token body.1) hn);
      })

  Matches-option :
      {A : Type 0} (o : Option A) (m : Prog Ride) (f : A → Prog Ride)
      → Matches t id m
      → ((a : A) → Matches t id (f a))
      → Matches t id (case_option o m f)
  Matches-option none m f hm hf = hm
  Matches-option (some a) m f hm hf = hf a

  try_candidates-Matches :
      (env : Env) (ride : Ride) (cs : List Candidate)
      → ride.id ≡ id
      → Matches t id (try_candidates env ride cs)
  unfolding try_candidates
  try_candidates-Matches env ride [] same =
      Matches-bind _ _ (search issues_rules) (λ _. Matches-raise no_available_driver)
  try_candidates-Matches env ride (c ∷ cs) same =
      let rest = try_candidates-Matches env ride cs same in
      Matches-bind _ _ (search (issues_rules, acquire_lock-IsReading, translate-IsReading))
        λ claimed.
          Matches-option claimed _ _
            (Matches-bind (call (emit (lock_failed ride.id c.driver.id))) _ (search issues_rules)
              λ _. Matches-bind (call record_lock_contention) _ (search issues_rules) λ _. rest)
            λ token.
              Matches-locked (lock_acquired ride.id c.driver.id) ride c (lock_key c.driver.id) token
                _ same rest

-- From a session at rest, every run of match_ride returns or raises. A ride it returns was requested
-- before and is now matched to a driver that was available before and is now busy, by one commit that
-- changes nothing else. If it raises, the tables are unchanged, unless Redis could not be reached to
-- release the lock after the commit, when the ride is matched and the caller gets the connection error.
pub match_ride-Matched :
    ⦃p : Platform⦄ (env : Env) (ride : Ride) (w : World)
    → Rests w.shared.db w
    → Matched w.shared.db ride.id (run (match_ride env ride) w)
unfolding match_ride
match_ride-Matched env ride w h = elim (Bool-cases (not (ride_status_eq ride.status requested))) [
  | inl e ↦ rw e ((Matches-raise w.shared.db ride.id value_error).from_rest w h)
  | inr e ↦ rw e (
      (Matches-bind w.shared.db ride.id _ _
          (find_ranked_candidates-IsReading env ride.pickup_lat ride.pickup_lng)
          (λ ranked.
            Matches-bind w.shared.db ride.id
              (call (emit (candidates_found ride.id (length ranked)))) _ (search issues_rules)
              (λ _. try_candidates-Matches w.shared.db ride.id env ride ranked refl))).from_rest
        w h)
]
