-- ===== src/Simulation/Reporting.antt =====
-- app/simulation/reporting.py, with statistics.quantiles(n=100, method="inclusive") and sorted() of
-- the standard library. The lock of ResultsCollector makes each call one step on its list.
use realtime_ride_matching_e.Prelude.{
  ℕ, zero, suc, ◌+◌, ◌-◌, ◌*◌, ◌/◌, ◌%◌, Bool, true, false, Option, List, [], ◌∷◌, ◌++◌, map,
  if◌then◌else◌, ◌==◌, length, select, min, max,
}
use realtime_ride_matching_e.Floats.{Float, Floats}
use realtime_ride_matching_e.Observability.Metrics.{Outcome, matched, unmatched, error}

pub record RequestOutcome : Type 0 where
  pub outcome : Outcome
  pub latency_seconds : Float
  pub status_code : Option ℕ
  pub ride_id : Option ℕ
  pub driver_id : Option ℕ

abbrev pub outcome_eq : Outcome → Outcome → Bool
outcome_eq matched matched = true
outcome_eq unmatched unmatched = true
outcome_eq error error = true
outcome_eq _ _ = false

abbrev pub has_outcome : Outcome → RequestOutcome → Bool
has_outcome o r = outcome_eq r.outcome o

-- ResultsCollector.record
unfoldable pub record_result : List RequestOutcome → RequestOutcome → List RequestOutcome
record_result outcomes outcome = outcomes ++ outcome ∷ []

pub record SimulationSummary : Type 0 where
  pub total_requests : ℕ
  pub matched_requests : ℕ
  pub unmatched_requests : ℕ
  pub errors : ℕ
  pub p50_latency_ms : Float
  pub p95_latency_ms : Float
  pub p99_latency_ms : Float

-- SimulationSummary.match_rate
unfoldable pub match_rate : Floats → SimulationSummary → Float
match_rate f summary =
    if summary.total_requests == 0
    then f.decimal 0 1
    else f.div (f.of_int summary.matched_requests) (f.of_int summary.total_requests)

abbrev pub float_at : List Float → ℕ → Float → Float
float_at [] i d = d
float_at (x ∷ xs) zero d = x
float_at (x ∷ xs) (suc i) d = float_at xs i d

-- One round of quantiles' loop, for the cut point i of n = 100.
unfoldable pub quantile : Floats → List Float → ℕ → Float
quantile f values i =
    let m = length values - 1 in
    let j = i * m / 100 in
    let delta = i * m % 100 in
    f.div
      (f.add (f.mul (float_at values j (f.of_int 0)) (f.of_int (100 - delta)))
        (f.mul (float_at values (j + 1) (f.of_int 0)) (f.of_int delta)))
      (f.of_int 100)

-- The cut points i, i + 1, …, as many as wanted.
unfoldable pub quantiles_from : Floats → List Float → ℕ → ℕ → List Float
unfolding quantile
quantiles_from f values i zero = []
quantiles_from f values i (suc n) = quantile f values i ∷ quantiles_from f values (i + 1) n

-- _percentile
unfoldable pub latency_percentile : Floats → List Float → ℕ → Float
unfolding quantiles_from
latency_percentile f [] pct = f.decimal 0 1
latency_percentile f (x ∷ []) pct = x
latency_percentile f (x ∷ y ∷ rest) pct =
    let quantiles = quantiles_from f (x ∷ y ∷ rest) 1 99 in
    let index = min (max (pct - 1) 0) (length quantiles - 1) in
    float_at quantiles index (f.of_int 0)

unfoldable pub insert_float : Floats → Float → List Float → List Float
insert_float f a [] = a ∷ []
insert_float f a (x ∷ xs) = if f.lt x a then x ∷ insert_float f a xs else a ∷ x ∷ xs

unfoldable pub sort_floats : Floats → List Float → List Float
unfolding insert_float
sort_floats f [] = []
sort_floats f (x ∷ xs) = insert_float f x (sort_floats f xs)

-- The number of outcomes of one kind.
abbrev pub count_outcome : Outcome → List RequestOutcome → ℕ
count_outcome o outcomes = length (select (has_outcome o) outcomes)

unfoldable pub summarize : Floats → List RequestOutcome → SimulationSummary
unfolding latency_percentile sort_floats
summarize f outcomes =
    let latencies_ms =
      sort_floats f (map (λ o. f.mul o.latency_seconds (f.of_int 1000)) outcomes) in
    record {
      total_requests = length outcomes;
      matched_requests = count_outcome matched outcomes;
      unmatched_requests = count_outcome unmatched outcomes;
      errors = count_outcome error outcomes;
      p50_latency_ms = latency_percentile f latencies_ms 50;
      p95_latency_ms = latency_percentile f latencies_ms 95;
      p99_latency_ms = latency_percentile f latencies_ms 99;
    }
