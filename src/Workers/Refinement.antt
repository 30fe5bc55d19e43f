-- ===== src/Workers/Refinement.antt =====
-- The running system as versions of rows, and each of its steps as one step on them.
use realtime_ride_matching_e.Prelude.{
  ℕ, ◌≡◌, refl, sym, ◌∙◌, true, false, none, some, if◌then◌else◌, Bool-cases, inl, inr,
}
use realtime_ride_matching_e.Models.{Ride}
use realtime_ride_matching_e.Storage.Tables.{find_ride}
use realtime_ride_matching_e.Program.State.{view}
use realtime_ride_matching_e.Workers.{System, world_of, writes_of, touches}
use realtime_ride_matching_e.Workers.Versions.{Versions, seen}
use realtime_ride_matching_e.Workers.Rows.{row_after, find_ride-replay, row_after-untouched}

-- The abstract view of the system.
unfoldable pub versions : System → Versions
versions s = record {
  base = λ id. find_ride s.shared.db id;
  own = λ i id. if touches id (writes_of s i) then find_ride (view (world_of s i)) id else none;
}

-- What a transaction has written is there for it to see.
abbrev pub Present : System → ℕ → Type 0
Present s i =
    (id : ℕ)
    → touches id (writes_of s i) ≡ true
    → (r : Ride) × (find_ride (view (world_of s i)) id ≡ some r)

module _ (s : System) (i id : ℕ) where
  pub view-row :
      find_ride (view (world_of s i)) id ≡ row_after (writes_of s i) id (find_ride s.shared.db id)
  view-row = find_ride-replay (writes_of s i) id s.shared.db

  pub untouched-view :
      touches id (writes_of s i) ≡ false
      → find_ride (view (world_of s i)) id ≡ find_ride s.shared.db id
  untouched-view h = view-row ∙ row_after-untouched (writes_of s i) id _ h

  pub base-versions : (versions s).base id ≡ find_ride s.shared.db id
  unfolding versions
  base-versions = refl

  pub own-touched :
      touches id (writes_of s i) ≡ true → (versions s).own i id ≡ find_ride (view (world_of s i)) id
  unfolding versions
  own-touched h = rw h

  pub own-untouched : touches id (writes_of s i) ≡ false → (versions s).own i id ≡ none
  unfolding versions
  own-untouched h = rw h

  -- A version is there exactly if its row is touched and seen.
  pub own-some :
      (r : Ride)
      → (versions s).own i id ≡ some r
      → (touches id (writes_of s i) ≡ true) × (find_ride (view (world_of s i)) id ≡ some r)
  own-some r h = elim (Bool-cases (touches id (writes_of s i))) [
    | inl e ↦ (e, sym (own-touched e) ∙ h)
    | inr e ↦ absurd (none-is (sym (own-untouched e) ∙ h))
  ]
    where
      none-is : {r : Ride} → none ≡ some r → ⊥
      none-is e = cc

  -- The abstract reading is the statement's.
  pub seen-versions : Present s i → seen (versions s) i id ≡ find_ride (view (world_of s i)) id
  seen-versions p = elim (Bool-cases (touches id (writes_of s i))) [
    | inl e ↦ let (r, found) = p id e in rw (own-touched e, found)
    | inr e ↦ rw (own-untouched e, base-versions) (sym (untouched-view e))
  ]
