-- ===== src/Observability/DbMetrics.antt =====
-- observability/db_metrics.py: per-statement latencies, and the two engine listeners, which keep a
-- stack of start times on the connection. Durations and readings of perf_counter are floats.
use realtime_ride_matching_e.Prelude.{ℕ, List, [], ◌∷◌, Option, none, some}
use realtime_ride_matching_e.Floats.{Float, Floats}
use realtime_ride_matching_e.Observability.Window.{push}
use realtime_ride_matching_e.Observability.Percentiles.{percentile, sorted}

pub record DbLatencyTracker : Type 0 where
  pub window_size : ℕ
  pub recent_ms : List Float

-- record
unfoldable pub record_duration : Floats → DbLatencyTracker → Float → DbLatencyTracker
record_duration f t duration_seconds = record t {
  recent_ms = push t.window_size t.recent_ms (f.mul duration_seconds (f.of_int 1000));
}

unfoldable pub percentiles : Floats → DbLatencyTracker → Float × Float × Float
percentiles f t =
    let latencies_ms = sorted f t.recent_ms in
    (percentile f latencies_ms 50, percentile f latencies_ms 95, percentile f latencies_ms 99)

-- conn.info["query_start_times"], the last entry first
abbrev pub StartTimes : Type 0
StartTimes = List Float

unfoldable pub before_cursor_execute : StartTimes → Float → StartTimes
before_cursor_execute starts clock = clock ∷ starts

-- `none` is the IndexError of a pop from the empty list.
unfoldable pub after_cursor_execute :
    Floats → StartTimes → DbLatencyTracker → Float → Option (StartTimes × DbLatencyTracker)
after_cursor_execute f [] t clock = none
after_cursor_execute f (start ∷ rest) t clock = some (rest, record_duration f t (f.sub clock start))
