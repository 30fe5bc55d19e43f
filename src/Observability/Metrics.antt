-- ===== src/Observability/Metrics.antt =====
-- observability/metrics.py: MetricsTracker. Each method runs under the tracker's lock, so each is
-- one step on its state.
use realtime_ride_matching_e.Prelude.{
  ℕ, ◌+◌, ◌-◌, Bool, true, false, ◌&&◌, List, [], if◌then◌else◌, leb, length, select, map,
}
use realtime_ride_matching_e.Floats.{Float, Floats}
use realtime_ride_matching_e.Observability.Window.{push}
use realtime_ride_matching_e.Observability.Percentiles.{percentile, sorted}

pub data Outcome : Type 0 where
  matched unmatched error : Outcome

-- The latency is a difference of clock readings, in milliseconds.
pub record MatchAttempt : Type 0 where
  pub outcome : Outcome
  pub latency : ℕ
  pub at : ℕ

pub record MetricsSnapshot : Type 0 where
  pub failed_matches : ℕ
  pub lock_contention_count : ℕ
  pub match_throughput_per_minute : ℕ
  pub p50_latency_ms : Float
  pub p95_latency_ms : Float
  pub p99_latency_ms : Float

-- `recent` is the deque with maxlen `window_size`, oldest entry first.
pub record MetricsTracker : Type 0 where
  pub window_size : ℕ
  pub recent : List MatchAttempt
  pub failed_matches_total : ℕ
  pub lock_contention_total : ℕ

abbrev pub is_unmatched : Outcome → Bool
is_unmatched unmatched = true
is_unmatched _ = false

abbrev pub is_matched : Outcome → Bool
is_matched matched = true
is_matched _ = false

-- __init__
unfoldable pub new_tracker : ℕ → MetricsTracker
new_tracker window_size = record {
  window_size = window_size;
  recent = [];
  failed_matches_total = 0;
  lock_contention_total = 0;
}

-- record, with the reading of the clock that it takes
unfoldable pub record_outcome : MetricsTracker → Outcome → ℕ → ℕ → MetricsTracker
record_outcome t outcome latency at = record t {
  recent = push t.window_size t.recent (record { outcome = outcome; latency = latency; at = at });
  failed_matches_total =
      if is_unmatched outcome then t.failed_matches_total + 1 else t.failed_matches_total;
}

unfoldable pub record_contention : MetricsTracker → MetricsTracker
record_contention t = record t { lock_contention_total = t.lock_contention_total + 1 }

-- _THROUGHPUT_WINDOW_SECONDS, in milliseconds
abbrev pub throughput_window : ℕ
throughput_window = 60000

abbrev pub counts_for_throughput : ℕ → MatchAttempt → Bool
counts_for_throughput now a = is_matched a.outcome && leb (now - a.at) throughput_window

-- latency_seconds
abbrev pub latency_seconds : Floats → MatchAttempt → Float
latency_seconds f a = f.div (f.of_int a.latency) (f.of_int 1000)

unfoldable pub snapshot : Floats → MetricsTracker → ℕ → MetricsSnapshot
snapshot f t now =
    let latencies_ms = sorted f (map (λ a. f.mul (latency_seconds f a) (f.of_int 1000)) t.recent) in
    record {
      failed_matches = t.failed_matches_total;
      lock_contention_count = t.lock_contention_total;
      match_throughput_per_minute = length (select (counts_for_throughput now) t.recent);
      p50_latency_ms = percentile f latencies_ms 50;
      p95_latency_ms = percentile f latencies_ms 95;
      p99_latency_ms = percentile f latencies_ms 99;
    }
