-- ===== src/Lifecycle/Statuses.antt =====
-- Statuses that pass a test are those that the test names.
use realtime_ride_matching_e.Prelude.{
  ◌≡◌, refl, sym, subst, true, List, [], ◌∷◌, All, Bool-cases, inl, inr,
}
use realtime_ride_matching_e.Models.{
  RideStatus, requested, matched, in_progress, completed, cancelled, ride_status_eq, status_in,
}
use realtime_ride_matching_e.Lifecycle.{MayBecome}

status_eq : (s t : RideStatus) → ride_status_eq s t ≡ true → s ≡ t
status_eq requested requested h = refl
status_eq matched matched h = refl
status_eq in_progress in_progress h = refl
status_eq completed completed h = refl
status_eq cancelled cancelled h = refl
status_eq requested matched h = cc
status_eq requested in_progress h = cc
status_eq requested completed h = cc
status_eq requested cancelled h = cc
status_eq matched requested h = cc
status_eq matched in_progress h = cc
status_eq matched completed h = cc
status_eq matched cancelled h = cc
status_eq in_progress requested h = cc
status_eq in_progress matched h = cc
status_eq in_progress completed h = cc
status_eq in_progress cancelled h = cc
status_eq completed requested h = cc
status_eq completed matched h = cc
status_eq completed in_progress h = cc
status_eq completed cancelled h = cc
status_eq cancelled requested h = cc
status_eq cancelled matched h = cc
status_eq cancelled in_progress h = cc
status_eq cancelled completed h = cc

-- A status of the list moves as the list may.
pub of_status_in :
    (s to : RideStatus) (from : List RideStatus)
    → status_in s from ≡ true
    → All (λ t. MayBecome t to) from
    → MayBecome s to
of_status_in s to [] h a = cc
of_status_in s to (t ∷ from) h a = elim (Bool-cases (ride_status_eq s t)) [
  | inl e ↦ subst (λ x. MayBecome x to) (sym (status_eq s t e)) a.0
  | inr e ↦ of_status_in s to from (rw e at h) a.1
]
