-- ===== src/Observability/Counting.antt =====
-- What the metrics tracker knows after a run of calls, and the window of its percentiles.
use realtime_ride_matching_e.Prelude.{
  ℕ, ◌+◌, ◌≤◌, ◌≡◌, Bool, true, false, List, [], ◌∷◌, length, select, arith,
}
use realtime_ride_matching_e.Floats.{Floats}
use realtime_ride_matching_e.Observability.Window.{length-push}
use realtime_ride_matching_e.Observability.Metrics.{
  Outcome, MetricsTracker, new_tracker, record_outcome, record_contention, is_unmatched, snapshot,
}

-- The calls that change a tracker.
pub data Call : Type 0 where
  recorded : Outcome → (latency at : ℕ) → Call
  contended : Call

abbrev pub replayed : MetricsTracker → List Call → MetricsTracker
replayed t [] = t
replayed t (recorded o latency at ∷ calls) = replayed (record_outcome t o latency at) calls
replayed t (contended ∷ calls) = replayed (record_contention t) calls

abbrev pub is_failure : Call → Bool
is_failure (recorded o latency at) = is_unmatched o
is_failure contended = false

abbrev pub is_contention : Call → Bool
is_contention (recorded o latency at) = false
is_contention contended = true

replayed_lem :
    (calls : List Call) (t : MetricsTracker)
    → length t.recent ≤ t.window_size
    → (length (replayed t calls).recent ≤ t.window_size)
      × ((replayed t calls).failed_matches_total
          ≡ t.failed_matches_total + length (select is_failure calls))
      × ((replayed t calls).lock_contention_total
          ≡ t.lock_contention_total + length (select is_contention calls))
unfolding record_outcome record_contention
replayed_lem [] t h = (h, omega arith, omega arith)
replayed_lem (recorded o latency at ∷ calls) t h =
    let rest =
      replayed_lem calls (record_outcome t o latency at) (
        length-push t.window_size t.recent (record { outcome = o; latency = latency; at = at })
          h) in
    ground (arith, rest.0, rest.1, rest.2)
replayed_lem (contended ∷ calls) t h =
    let rest = replayed_lem calls (record_contention t) h in ground (arith, rest.0, rest.1, rest.2)

-- After any calls on a new tracker, a snapshot counts every unmatched attempt and every lost lock since
-- the start, those that have left the window included, and the window has never more entries than its
-- size.
pub snapshot_counts :
    (f : Floats) (window_size now : ℕ) (calls : List Call)
    → ((snapshot f (replayed (new_tracker window_size) calls) now).failed_matches
        ≡ length (select is_failure calls))
      × ((snapshot f (replayed (new_tracker window_size) calls) now).lock_contention_count
          ≡ length (select is_contention calls))
      × (length (replayed (new_tracker window_size) calls).recent ≤ window_size)
unfolding snapshot new_tracker
snapshot_counts f window_size now calls =
    let all = replayed_lem calls (new_tracker window_size) (omega arith) in
    (omega (arith, all.1), omega (arith, all.2), all.0)
