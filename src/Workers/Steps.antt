-- ===== src/Workers/Steps.antt =====
-- Every step of the system is a step on the versions of rows, and keeps the system running.
use realtime_ride_matching_e.Prelude.{
  ℕ, ◌≡◌, sym, ◌∙◌, subst, true, false, none, List, ◌==◌, arith, All, find_by, Bool-cases, inl, inr,
  ap, ==_iff,
}
use realtime_ride_matching_e.Storage.Tables.{Write, replay, find_ride, ride_id_of}
use realtime_ride_matching_e.Program.State.{fresh_session, view}
use realtime_ride_matching_e.Program.Commands.{Cmd}
use realtime_ride_matching_e.Program.Issues.{Issues}
use realtime_ride_matching_e.Lifecycle.{IsLawful}
use realtime_ride_matching_e.Workers.{System, world_of, writes_of, touches, Proceeds}
use realtime_ride_matching_e.Workers.Versions.{RowStep, publishes}
use realtime_ride_matching_e.Workers.Consistency.{IsConsistent, none-ne-some}
use realtime_ride_matching_e.Workers.Tracing.{IsTraced}
use realtime_ride_matching_e.Workers.Changes.{
  LeavesRides, leaves-replay, IsQuiet, Changes, rests, flushes, inserts, updates, commits,
  rolls_back,
}
use realtime_ride_matching_e.Workers.Refinement.{
  versions, Present, untouched-view, base-versions, own-touched, seen-versions,
}
use realtime_ride_matching_e.Workers.Turns.{TurnOf, other-own, other-Present}
use realtime_ride_matching_e.Workers.Calls.{
  rests-IsStep, flushes-IsStep, inserts-IsStep, updates-IsStep, rolls_back-IsStep, ended-Forgets,
  ended-Present,
}

-- What holds of the system at all times.
pub record IsRunning (s : System) : Type 0 where
  -- only drivers have changes that are not flushed
  pub quiet : (i : ℕ) → IsQuiet (world_of s i)
  pub lawful : (i : ℕ) → Issues IsLawful (s.workers i).program
  pub present : (i : ℕ) → Present s i
  pub consistent : IsConsistent (versions s)
  pub traced : IsTraced (versions s)

module _ (s s' : System) (i : ℕ) (turn : TurnOf s s' i) (run : IsRunning s) where
  -- Two transactions have not written the same row.
  others_untouched :
      (j id : ℕ)
      → (j == i) ≡ false
      → touches id (writes_of s j) ≡ true
      → touches id (writes_of s i) ≡ false
  others_untouched j id n t = elim (Bool-cases (touches id (writes_of s i))) [
    | inr e ↦ e
    | inl e ↦
        let (r, found) = run.present j id t in
        let (q, mine) = run.present i id e in
        let gone : (versions s).own i id ≡ none =
          run.consistent.apart j i id r (ground (arith, n)) (own-touched s j id t ∙ found) in
        absurd (none-ne-some q (sym gone ∙ own-touched s i id e ∙ mine))
  ]

  module _ (ds : List Write) (l : All LeavesRides ds)
      (db : s'.shared.db ≡ replay ds (view (world_of s i)))
      (ended : (s'.workers i).session ≡ fresh_session) where
    committed_row : (id : ℕ) → find_ride s'.shared.db id ≡ find_ride (view (world_of s i)) id
    committed_row id =
        ap (λ t. find_ride t id) db
        ∙ ap (find_by ride_id_of id) (leaves-replay ds (view (world_of s i)) l)

    committed_same :
        (j id : ℕ)
        → (j == i) ≡ false
        → touches id (writes_of s j) ≡ true
        → find_ride s'.shared.db id ≡ find_ride s.shared.db id
    committed_same j id n t = committed_row id ∙ untouched-view s i id (others_untouched j id n t)

    commits-RowStep : RowStep (versions s) (versions s')
    commits-RowStep =
        publishes i
          (λ id.
            base-versions s' i id ∙ committed_row id ∙ sym (seen-versions s i id (run.present i)))
          (λ j id n. other-own s s' i turn j id n (committed_same j id n))
          (ended-Forgets s s' i turn run.present ended)

  all_Present :
      ((j id : ℕ)
        → (j == i) ≡ false
        → touches id (writes_of s j) ≡ true
        → find_ride s'.shared.db id ≡ find_ride s.shared.db id)
      → Present s' i
      → (j : ℕ) → Present s' j
  all_Present same mine j = elim (Bool-cases (j == i)) [
    | inl e ↦ subst (Present s') (sym ((==_iff j i).0 e)) mine
    | inr n ↦ other-Present s s' i turn j n (λ id t. same j id n t) (run.present j)
  ]

  same_rows :
      s'.shared.db ≡ s.shared.db
      → (j id : ℕ) → (j == i) ≡ false
      → touches id (writes_of s j) ≡ true
      → find_ride s'.shared.db id ≡ find_ride s.shared.db id
  same_rows d j id n t = ap (λ u. find_ride u id) d

  pub turn-step :
      (c : Cmd)
      → Changes (world_of s i) c (world_of s' i)
      → IsLawful c
      → Proceeds s i c
      → RowStep (versions s) (versions s') × ((j : ℕ) → Present s' j)
  turn-step c (rests d w q) lawful go =
      let (st, p) = rests-IsStep s s' i turn run.present d w in (st, all_Present (same_rows d) p)
  turn-step c (flushes ws l d w q) lawful go =
      let (st, p) = flushes-IsStep s s' i turn run.present d ws l w in
      (st, all_Present (same_rows d) p)
  turn-step c (inserts r ws e l d w q free checked) lawful go =
      let (st, p) =
        inserts-IsStep s s' i turn run.present d r ws l w free checked (subst IsLawful e lawful)
          (subst (Proceeds s i) e go) in
      (st, all_Present (same_rows d) p)
  turn-step c (updates id from to extra r e found st checked d w q) lawful go =
      let (st, p) =
        updates-IsStep s s' i turn run.present d id from to extra r found st checked w
          (subst IsLawful e lawful) (subst (Proceeds s i) e go) in
      (st, all_Present (same_rows d) p)
  turn-step c (commits ds l db ended) lawful go = (
    commits-RowStep ds l db ended,
    all_Present (committed_same ds l db ended) (ended-Present s s' i turn run.present ended),
  )
  turn-step c (rolls_back d ended) lawful go =
      let (st, p) = rolls_back-IsStep s s' i turn run.present ended d in
      (st, all_Present (same_rows d) p)
