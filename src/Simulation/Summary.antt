-- ===== src/Simulation/Summary.antt =====
-- What the summary of a simulation counts.
use realtime_ride_matching_e.Prelude.{◌+◌, ◌≡◌, refl, List, [], ◌∷◌, length, arith}
use realtime_ride_matching_e.Floats.{Floats}
use realtime_ride_matching_e.Observability.Metrics.{Outcome, matched, unmatched, error}
use realtime_ride_matching_e.Simulation.Reporting.{RequestOutcome, count_outcome, summarize}

-- One outcome under each kind.
count-cons :
    (o : Outcome) (r : RequestOutcome) (rs : List RequestOutcome)
    → count_outcome o (r ∷ rs) ≡ count_outcome o (r ∷ []) + count_outcome o rs
count-cons o r rs = ground arith

each_kind :
    (r : RequestOutcome)
    → count_outcome matched (r ∷ [])
        + count_outcome unmatched (r ∷ [])
        + count_outcome error (r ∷ [])
      ≡ 1
each_kind r = ground arith

kinds_cover :
    (rs : List RequestOutcome)
    → count_outcome matched rs + count_outcome unmatched rs + count_outcome error rs ≡ length rs
kinds_cover [] = refl
kinds_cover (r ∷ rs) = omega (
  arith,
  kinds_cover rs,
  each_kind r,
  count-cons matched r rs,
  count-cons unmatched r rs,
  count-cons error r rs,
)

-- Every recorded outcome is counted once: as matched, unmatched or an error.
pub summarize_lem :
    (f : Floats) (rs : List RequestOutcome)
    → ((summarize f rs).matched_requests
          + (summarize f rs).unmatched_requests
          + (summarize f rs).errors
        ≡ (summarize f rs).total_requests)
      × ((summarize f rs).total_requests ≡ length rs)
unfolding summarize
summarize_lem f rs = (kinds_cover rs, refl)
