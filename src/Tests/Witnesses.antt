-- ===== src/Tests/Witnesses.antt =====
-- The theorems at concrete inputs.
use realtime_ride_matching_e.Prelude.{
  List, ◌≤◌, Bool, ◌%◌, length, ℕ, none, ◌≡◌, refl, true, some, [], ◌∷◌, ◌↔◌, ◌==◌, if◌then◌else◌,
  arith,
}
use realtime_ride_matching_e.Program.State.{World}
use realtime_ride_matching_e.Floats.{Le}
use realtime_ride_matching_e.Matching.Ranking.{measured}
use realtime_ride_matching_e.Observability.Metrics.{matched, unmatched, new_tracker, snapshot}
use realtime_ride_matching_e.Observability.Counting.{
  Call, recorded, contended, replayed, snapshot_counts,
}
use realtime_ride_matching_e.Observability.Events.{lock_failed, broadcast_round}
use realtime_ride_matching_e.Observability.FanOut.{attached, broadcast_round_lem}
use realtime_ride_matching_e.Redis
use realtime_ride_matching_e.Models.{Ride, active_ride_statuses, cancelled, completed}
use realtime_ride_matching_e.Program.Commands.{attempt, ok, err, idempotency_key_conflict, ◌>>=◌}
use realtime_ride_matching_e.Program.Effects.{effect}
use realtime_ride_matching_e.Program.Cases.{started}
use realtime_ride_matching_e.Matching.DriverLock.{acquire_lock, release_lock}
use realtime_ride_matching_e.Storage.Constraints.{violates_unique, clashes, both_active}
use realtime_ride_matching_e.Matching.Progress.{match_ride_succeeds}
use realtime_ride_matching_e.Api.Rides.Recording.{
  answered, outcome_of, Recorded, after_match-Recorded,
}
use realtime_ride_matching_e.Matching.Locking.{is_success, acquire_lock_excludes, release_lock_lem}
use realtime_ride_matching_e.RideService.{
  matches, create_ride, completable_statuses, cancel_ride, complete_ride,
}
use realtime_ride_matching_e.RideService.Creation.{Created, create_ride-Created}
use realtime_ride_matching_e.RideService.Inserting.{new_ride}
use realtime_ride_matching_e.RideService.Idempotency.{create_ride_replays}
use realtime_ride_matching_e.RideService.Retry.{create_ride_twice}
use realtime_ride_matching_e.RideService.Ending.{Ended, endings-Ended}
use realtime_ride_matching_e.Redis.{without, Lock, holder, set_nx_px, compare_and_delete}
use realtime_ride_matching_e.Program.Exec.{run}
use realtime_ride_matching_e.Program.Issues.{Issues}
use realtime_ride_matching_e.Matching.Matcher.{match_ride}
use realtime_ride_matching_e.Matching.Correctness.{Matched, match_ride-Matched}
use realtime_ride_matching_e.Matching.LockRelease.{match_ride_releases}
use realtime_ride_matching_e.Lifecycle.{IsLawful}
use realtime_ride_matching_e.Lifecycle.Issued.{routes_issue-IsLawful}
use realtime_ride_matching_e.Pricing.{surge_multiplier}
use realtime_ride_matching_e.Pricing.Bounds.{surge_multiplier_bounds, surge_multiplier_mono}
use realtime_ride_matching_e.Api.Rides.{
  after_match, request_ride, cancel_ride_endpoint, complete_ride_endpoint,
}
use realtime_ride_matching_e.Config.{default_settings}
use realtime_ride_matching_e.Tests.FixedFloats.{fixed, fixed_kinds, fixed-IsOrdered}
use realtime_ride_matching_e.Tests.Samples.{
  quiet_world, near_driver, far_driver, second, city, waiting_ride, city_tables, city_world, retry,
}
use realtime_ride_matching_e.Tests.Reference.{reliable, reliable-Answers, reliable-Commits}
use realtime_ride_matching_e.Tests.Runs.{foreign_lock_kept, ranked, second_stored}

-- What the first acquisition of key 2 leaves, later.
abbrev waiting_world : ℕ → World
waiting_world clock = record city_world {
  shared = record city_world.shared {
    clock = clock;
    locks = record { key = 2; token = 50; expires_at = 6000 } ∷ city_world.shared.locks;
  };
}

match_ride-Matched_example : Matched city_tables 10 (run (match_ride city waiting_ride) city_world)
match_ride-Matched_example =
    match_ride-Matched city waiting_ride city_world
      (record { db = refl; writes = refl; dirty = refl })

match_ride_releases_example : holder 1000 1 city_world.shared.locks ≡ some 900
match_ride_releases_example =
    match_ride_releases reliable-Answers city waiting_ride city_world 1 900 foreign_lock_kept

routes_issue-IsLawful_example :
    Issues IsLawful (request_ride city retry)
    × Issues IsLawful (cancel_ride_endpoint 10)
    × Issues IsLawful (complete_ride_endpoint 10)
routes_issue-IsLawful_example = routes_issue-IsLawful city retry 10

acquire_lock_excludes_example : (run (acquire_lock 2 5000) (waiting_world 1200)).0 ≡ ok none
unfolding acquire_lock run ◌>>=◌ effect Redis.set_nx_px holder without
acquire_lock_excludes_example =
    acquire_lock_excludes reliable-Answers 2 5000 5000 50 city_world (waiting_world 1200) refl refl
      (omega arith)

release_lock_lem_example :
    (holder 1000 1 (run (release_lock 1 900) city_world).1.shared.locks ≡ (
      if 1 == 1
      then (if is_success (run (release_lock 1 900) city_world).0
          then none
          else holder 1000 1 city_world.shared.locks)
      else holder 1000 1 city_world.shared.locks))
    × ((is_success (run (release_lock 1 900) city_world).0 ≡ true)
        ↔ (holder 1000 1 city_world.shared.locks ≡ some 900))
release_lock_lem_example = release_lock_lem reliable-Answers 1 900 1 city_world

create_ride-Created_example :
    Created city second city_tables (run (create_ride city second) (started city_world.shared))
create_ride-Created_example = create_ride-Created city second city_world.shared refl

create_ride_replays_example :
    ((run (create_ride city retry) (started city_world.shared)).0
      ≡ (if matches city waiting_ride retry then ok waiting_ride else err idempotency_key_conflict))
    × ((run (create_ride city retry) (started city_world.shared)).1.shared ≡ city_world.shared)
create_ride_replays_example =
    create_ride_replays city retry "first" city_world.shared waiting_ride [] refl refl

create_ride_twice_example :
    ((run
        (create_ride city second)
        (started (run (create_ride city second) (started city_world.shared)).1.shared)).0
      ≡ ok (new_ride second 51 1000 7 1250))
    × ((run
          (create_ride city second)
          (started (run (create_ride city second) (started city_world.shared)).1.shared)).1.shared
        ≡ (run (create_ride city second) (started city_world.shared)).1.shared)
create_ride_twice_example =
    create_ride_twice city second "second" city_world.shared (new_ride second 51 1000 7 1250) refl
      refl refl refl second_stored

endings-Ended_example :
    Ended city_tables 10 active_ride_statuses cancelled
      (run (cancel_ride 10) (started city_world.shared))
    × Ended city_tables 10 completable_statuses completed
        (run (complete_ride 10) (started city_world.shared))
endings-Ended_example = endings-Ended city_world.shared 10

surge_multiplier_bounds_example :
    (fixed_kinds.is_number (surge_multiplier city 4 1) ≡ true)
    × Le fixed 1000 (surge_multiplier city 4 1)
    × Le fixed (surge_multiplier city 4 1) 3000
unfolding default_settings
surge_multiplier_bounds_example =
    surge_multiplier_bounds city fixed_kinds fixed-IsOrdered 4 1 refl refl refl

surge_multiplier_mono_example : Le fixed (surge_multiplier city 1 3) (surge_multiplier city 4 0)
surge_multiplier_mono_example =
    surge_multiplier_mono city fixed_kinds fixed-IsOrdered 1 4 3 0 refl refl (omega arith)
      (omega arith)

abbrev some_calls : List Call
some_calls = recorded unmatched 5 1 ∷ contended ∷ recorded matched 7 2 ∷ []

snapshot_counts_example :
    ((snapshot fixed (replayed (new_tracker 1) some_calls) 9).failed_matches ≡ 1)
    × ((snapshot fixed (replayed (new_tracker 1) some_calls) 9).lock_contention_count ≡ 1)
    × (length (replayed (new_tracker 1) some_calls).recent ≤ 1)
snapshot_counts_example = snapshot_counts fixed 1 9 some_calls

abbrev odd_only : ℕ → Bool
odd_only n = n % 2 == 1

broadcast_round_lem_example :
    ((broadcast_round odd_only (attached 10 (lock_failed 10 1 ∷ []) (1 ∷ 2 ∷ []) [])).queue
      ≡ some (record { maxsize = 10; items = [] }))
    × ((broadcast_round odd_only (attached 10 (lock_failed 10 1 ∷ []) (1 ∷ 2 ∷ []) [])).delivered
        ≡ ((1, lock_failed 10 1) ∷ []))
    × ((broadcast_round odd_only (attached 10 (lock_failed 10 1 ∷ []) (1 ∷ 2 ∷ []) [])).connections
        ≡ (1 ∷ []))
broadcast_round_lem_example = broadcast_round_lem odd_only 10 (lock_failed 10 1) [] (1 ∷ 2 ∷ []) []

match_ride_succeeds_example :
    (r : Ride) × ((run (match_ride city waiting_ride) quiet_world).0 ≡ ok r)
    × (r.driver_id ≡ some 1)
unfolding violates_unique clashes both_active holder
match_ride_succeeds_example =
    match_ride_succeeds reliable-Answers reliable-Commits city waiting_ride quiet_world
      (measured fixed 100 100 near_driver) (measured fixed 100 100 far_driver ∷ []) waiting_ride
      near_driver (record { db = refl; writes = refl; dirty = refl }) refl ranked refl refl refl
      refl (λ at. refl) refl

after_match-Recorded_example :
    ((run (attempt (match_ride city waiting_ride) (after_match waiting_ride 900)) city_world).0
      ≡ answered waiting_ride (run (match_ride city waiting_ride) city_world).0)
    × Recorded 900
        (outcome_of (run (match_ride city waiting_ride) city_world).0)
        (run (match_ride city waiting_ride) city_world).1
        (run (attempt (match_ride city waiting_ride) (after_match waiting_ride 900)) city_world).1
after_match-Recorded_example = after_match-Recorded city waiting_ride 900 city_world
