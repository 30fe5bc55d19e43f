-- ===== src/Workers/Calls.antt =====
-- Each way in which a command can change `rides` is one step on the versions of rows.
use realtime_ride_matching_e.Prelude.{
  ℕ, ◌≡◌, refl, sym, ◌∙◌, subst, Bool, true, false, ◌||◌, Option, none, some, List, [], ◌∷◌, ◌++◌,
  ◌==◌, arith, All, ap, ==_self,
}
use realtime_ride_matching_e.Models.{Ride, RideStatus, status_in}
use realtime_ride_matching_e.Storage.Tables.{
  Write, Assignment, insert_ride, set_ride_status, find_ride, with_ride_status,
}
use realtime_ride_matching_e.Storage.Constraints.{violates_unique, id_taken}
use realtime_ride_matching_e.Storage.Uniqueness.{find_by_key}
use realtime_ride_matching_e.Lifecycle.Statuses.{of_status_in}
use realtime_ride_matching_e.Program.State.{Session, fresh_session, view}
use realtime_ride_matching_e.Program.Commands.{add_ride, update_ride}
use realtime_ride_matching_e.Lifecycle.{IsLawful}
use realtime_ride_matching_e.Workers.{
  System, world_of, writes_of, touches, Unlocked, Undisputed, Proceeds,
}
use realtime_ride_matching_e.Workers.Versions.{Moves, created, moved, RowStep, discards, Forgets}
use realtime_ride_matching_e.Workers.Rows.{
  row_after, row_after-untouched, row_after-append, row_after-insert, row_after-update,
  touches-append, find-of_free_id, id-with_status,
}
use realtime_ride_matching_e.Workers.Changes.{LeavesRides, leaves-touches, leaves-row_after}
use realtime_ride_matching_e.Workers.Refinement.{versions, Present, view-row, own-untouched}
use realtime_ride_matching_e.Workers.Turns.{
  TurnOf, turn-SameBase, turn-SameOthers, rest-RowStep, write-RowStep, write-Present,
}

or_none : (a b : Bool) → b ≡ false → (a || b) ≡ a
or_none a b h = ground (arith, h)

module _ (s s' : System) (i : ℕ) (turn : TurnOf s s' i) (present : (j : ℕ) → Present s j) where
  -- What a turn comes to: a step on the versions, after which the worker's writes are there.
  abbrev pub IsStep : Type 0
  IsStep = RowStep (versions s) (versions s') × Present s' i

  module _ (same : s'.shared.db ≡ s.shared.db) where
    own_rows-same :
        ((id : ℕ) → touches id (writes_of s' i) ≡ touches id (writes_of s i))
        → ((id : ℕ)
            → row_after (writes_of s' i) id (find_ride s.shared.db id)
              ≡ row_after (writes_of s i) id (find_ride s.shared.db id))
        → IsStep
    own_rows-same t r =
        let v = λ (id : ℕ).
          view-row s' i id
          ∙ ap (λ d. row_after (writes_of s' i) id (find_ride d id)) same
          ∙ r id
          ∙ sym (view-row s i id) in
        (
          rest-RowStep s s' i turn same t v,
          λ id e. let (q, found) = present i id (sym (t id) ∙ e) in (q, v id ∙ found),
        )

    pub rests-IsStep : writes_of s' i ≡ writes_of s i → IsStep
    rests-IsStep w =
        own_rows-same (λ id. ap (touches id) w)
          (λ id. ap (λ ws. row_after ws id (find_ride s.shared.db id)) w)

    pub flushes-IsStep :
        (ws : List Write) → All LeavesRides ws → writes_of s' i ≡ writes_of s i ++ ws → IsStep
    flushes-IsStep ws l w =
        own_rows-same
          (λ id.
            ap (touches id) w
            ∙ touches-append (writes_of s i) ws id
            ∙ or_none _ _ (leaves-touches ws id l))
          (λ id.
            ap (λ us. row_after us id (find_ride s.shared.db id)) w
            ∙ row_after-append (writes_of s i) ws id _
            ∙ leaves-row_after ws id _ l)

    -- A transaction with one more write.
    module _ (us : List Write) (x : Write) (w : writes_of s' i ≡ us ++ x ∷ [])
        (t : (id : ℕ) → touches id us ≡ touches id (writes_of s i))
        (v : (id : ℕ)
          → row_after us id (find_ride s.shared.db id) ≡ find_ride (view (world_of s i)) id) where
      last-touches :
          (id : ℕ)
          → touches id (writes_of s' i) ≡ (touches id (writes_of s i) || touches id (x ∷ []))
      last-touches id =
          ap (touches id) w
          ∙ touches-append us (x ∷ []) id
          ∙ ap (λ b. b || touches id (x ∷ [])) (t id)

      last-view :
          (id : ℕ)
          → find_ride (view (world_of s' i)) id
            ≡ row_after (x ∷ []) id (find_ride (view (world_of s i)) id)
      last-view id =
          view-row s' i id
          ∙ ap (λ d. row_after (writes_of s' i) id (find_ride d id)) same
          ∙ ap (λ ws. row_after ws id (find_ride s.shared.db id)) w
          ∙ row_after-append us (x ∷ []) id _
          ∙ ap (row_after (x ∷ []) id) (v id)

      module _ (new : Ride) (id : ℕ) (new_id : (new.id == id) ≡ true)
          (at_id : (y : ℕ) → touches y (x ∷ []) ≡ (id == y))
          (becomes : row_after (x ∷ []) id (find_ride (view (world_of s i)) id) ≡ some new)
          (checked : violates_unique (view (world_of s i)).rides new ≡ false)
          (unlocked : Unlocked s i id) (undisputed : Undisputed s i new)
          (move : Moves (find_ride (view (world_of s i)) id) new) where
        last-elsewhere :
            (y : ℕ)
            → (y == id) ≡ false
            → find_ride (view (world_of s' i)) y ≡ find_ride (view (world_of s i)) y
        last-elsewhere y n =
            last-view y ∙ row_after-untouched (x ∷ []) y _ (ground (arith, at_id y, n))

        last-touched : (y : ℕ) → touches y (writes_of s' i) ≡ (touches y (writes_of s i) || id == y)
        last-touched y = last-touches y ∙ ap (λ b. touches y (writes_of s i) || b) (at_id y)

        last-IsStep : IsStep
        last-IsStep = (
          write-RowStep s s' i id new turn same (present i) new_id checked unlocked undisputed move
              last-touched (last-view id ∙ becomes) last-elsewhere,
          write-Present s s' i id new turn same (present i) new_id checked unlocked undisputed move
              last-touched (last-view id ∙ becomes) last-elsewhere,
        )

    pub inserts-IsStep :
        (r : Ride) (ws : List Write)
        → All LeavesRides ws
        → writes_of s' i ≡ (writes_of s i ++ ws) ++ insert_ride r ∷ []
        → id_taken (view (world_of s i)).rides r ≡ false
        → violates_unique (view (world_of s i)).rides r ≡ false
        → IsLawful (add_ride r)
        → Proceeds s i (add_ride r)
        → IsStep
    inserts-IsStep r ws l w free checked lawful go =
        let absent : find_ride (view (world_of s i)) r.id ≡ none =
          find-of_free_id r (view (world_of s i)).rides free in
        last-IsStep (writes_of s i ++ ws) (insert_ride r) w
          (λ id. touches-append (writes_of s i) ws id ∙ or_none _ _ (leaves-touches ws id l))
          (λ id.
            row_after-append (writes_of s i) ws id _
            ∙ leaves-row_after ws id _ l
            ∙ sym (view-row s i id))
          r r.id (==_self r.id) (λ y. ground arith)
          (row_after-insert r r.id _ absent ∙ rw (==_self r.id) refl) checked go.0 go.1
          (subst (λ o. Moves o r) (sym absent) (created r lawful.0 lawful.1))

    pub updates-IsStep :
        (id : ℕ) (from : List RideStatus) (to : RideStatus) (extra : Option Assignment) (r : Ride)
        → find_ride (view (world_of s i)) id ≡ some r
        → status_in r.status from ≡ true
        → violates_unique (view (world_of s i)).rides (with_ride_status to extra s.shared.clock r)
          ≡ false
        → writes_of s' i ≡ writes_of s i ++ set_ride_status id to extra s.shared.clock ∷ []
        → IsLawful (update_ride id from to extra)
        → Proceeds s i (update_ride id from to extra)
        → IsStep
    updates-IsStep id from to extra r found st checked w lawful go =
        let (unlocked, undisputed) = go r found st in
        last-IsStep (writes_of s i) (set_ride_status id to extra s.shared.clock) w (λ x. refl)
          (λ x. sym (view-row s i x)) (with_ride_status to extra s.shared.clock r) id
          (ap (λ k. k == id) (id-with_status to extra s.shared.clock r)
            ∙ find_by_key id r (view (world_of s i)).rides found)
          (λ y. ground arith)
          (ap (row_after _ id) found
            ∙ row_after-update id to extra s.shared.clock id r
            ∙ rw (==_self id) refl)
          checked unlocked undisputed
          (subst (λ o. Moves o (with_ride_status to extra s.shared.clock r)) (sym found)
            (moved r to extra s.shared.clock (of_status_in r.status to from st lawful.0) lawful.1))

  -- The end of a transaction.
  module _ (ended : (s'.workers i).session ≡ fresh_session) where
    pub ended-touches : (id : ℕ) → touches id (writes_of s' i) ≡ false
    ended-touches id = ap (λ (x : Session). touches id x.writes) ended

    pub ended-Forgets : Forgets (versions s') i
    ended-Forgets id = own-untouched s' i id (ended-touches id)

    pub ended-Present : Present s' i
    ended-Present id e = absurd (both _ (ended-touches id) e)
      where
        both : (b : Bool) → b ≡ false → b ≡ true → ⊥
        both b p q = cc

    pub rolls_back-IsStep : s'.shared.db ≡ s.shared.db → IsStep
    rolls_back-IsStep same = (
      discards i (turn-SameBase s s' i turn same) (turn-SameOthers s s' i turn same) ended-Forgets,
      ended-Present,
    )
