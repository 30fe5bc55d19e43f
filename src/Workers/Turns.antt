-- ===== src/Workers/Turns.antt =====
-- One worker's turn as a step on the versions: what becomes of the other workers, and a write.
use realtime_ride_matching_e.Prelude.{
  ℕ, ◌≡◌, refl, sym, ◌∙◌, subst, Bool, true, false, ◌||◌, some, ◌==◌, arith, Bool-cases, inl, inr,
  ◌⊎◌, ap, ==_iff,
}
use realtime_ride_matching_e.Models.{Ride}
use realtime_ride_matching_e.Storage.Tables.{find_ride}
use realtime_ride_matching_e.Storage.Constraints.{violates_unique}
use realtime_ride_matching_e.Storage.Uniqueness.{Compatible, Compatible-of_clashes, find_by_key}
use realtime_ride_matching_e.Program.State.{Session, view}
use realtime_ride_matching_e.Workers.{System, world_of, writes_of, touches, Unlocked, Undisputed}
use realtime_ride_matching_e.Workers.Versions.{
  seen, Moves, MayWrite, RowStep, stays, writes, SameBase, SameOthers,
}
use realtime_ride_matching_e.Workers.Rows.{clashes-of_check}
use realtime_ride_matching_e.Workers.Refinement.{
  versions, Present, view-row, base-versions, own-touched, own-untouched, own-some, seen-versions,
}

-- Only the session of the worker `i` has changed.
abbrev pub TurnOf : System → System → ℕ → Type 0
TurnOf s s' i = (j : ℕ) → (j == i) ≡ false → (s'.workers j).session ≡ (s.workers j).session

module _ (s s' : System) (i : ℕ) (turn : TurnOf s s' i) where
  turn-writes : (j : ℕ) → (j == i) ≡ false → writes_of s' j ≡ writes_of s j
  turn-writes j n = ap (λ (x : Session). x.writes) (turn j n)

  turn-touches :
      (j id : ℕ) → (j == i) ≡ false → touches id (writes_of s' j) ≡ touches id (writes_of s j)
  turn-touches j id n = ap (touches id) (turn-writes j n)

  -- A row that is committed as before is the same for a worker whose session is the same.
  pub other-view :
      (j id : ℕ)
      → (j == i) ≡ false
      → find_ride s'.shared.db id ≡ find_ride s.shared.db id
      → find_ride (view (world_of s' j)) id ≡ find_ride (view (world_of s j)) id
  other-view j id n d = view-row s' j id ∙ (rw (d, turn-writes j n) refl) ∙ sym (view-row s j id)

  pub other-own :
      (j id : ℕ)
      → (j == i) ≡ false
      → (touches id (writes_of s j) ≡ true → find_ride s'.shared.db id ≡ find_ride s.shared.db id)
      → (versions s').own j id ≡ (versions s).own j id
  other-own j id n d = elim (Bool-cases (touches id (writes_of s j))) [
    | inl e ↦
        let e' : touches id (writes_of s' j) ≡ true = turn-touches j id n ∙ e in
        own-touched s' j id e' ∙ other-view j id n (d e) ∙ sym (own-touched s j id e)
    | inr e ↦
        let e' : touches id (writes_of s' j) ≡ false = turn-touches j id n ∙ e in
        own-untouched s' j id e' ∙ sym (own-untouched s j id e)
  ]

  pub other-Present :
      (j : ℕ)
      → (j == i) ≡ false
      → ((id : ℕ)
          → touches id (writes_of s j) ≡ true
          → find_ride s'.shared.db id ≡ find_ride s.shared.db id)
      → Present s j
      → Present s' j
  other-Present j n d p id e' =
      let e : touches id (writes_of s j) ≡ true = sym (turn-touches j id n) ∙ e' in
      let (r, found) = p id e in (r, other-view j id n (d id e) ∙ found)

  module _ (same : s'.shared.db ≡ s.shared.db) where
    pub turn-SameBase : SameBase (versions s) (versions s')
    turn-SameBase id =
        base-versions s' i id ∙ ap (λ t. find_ride t id) same ∙ sym (base-versions s i id)

    pub turn-SameOthers : SameOthers (versions s) (versions s') i
    turn-SameOthers j id n = other-own j id n (λ _. ap (λ t. find_ride t id) same)

    -- The worker's own rows are as before.
    pub rest-RowStep :
        ((id : ℕ) → touches id (writes_of s' i) ≡ touches id (writes_of s i))
        → ((id : ℕ) → find_ride (view (world_of s' i)) id ≡ find_ride (view (world_of s i)) id)
        → RowStep (versions s) (versions s')
    rest-RowStep t v = stays turn-SameBase λ j id. elim (Bool-cases (j == i)) [
      | inr n ↦ turn-SameOthers j id n
      | inl e ↦ rw ((==_iff j i).0 e) (mine id (Bool-cases (touches id (writes_of s i))))
    ]
      where
        mine :
            (id : ℕ)
            → (touches id (writes_of s i) ≡ true) ⊎ (touches id (writes_of s i) ≡ false)
            → (versions s').own i id ≡ (versions s).own i id
        mine id (inl e) = own-touched s' i id (t id ∙ e) ∙ v id ∙ sym (own-touched s i id e)
        mine id (inr e) = own-untouched s' i id (t id ∙ e) ∙ sym (own-untouched s i id e)

-- The worker `i` writes one row, as the checks of the statement let it.
module _ (s s' : System) (i id : ℕ) (new : Ride) (turn : TurnOf s s' i)
    (same : s'.shared.db ≡ s.shared.db) (present : Present s i) (new_id : (new.id == id) ≡ true)
    (checked : violates_unique (view (world_of s i)).rides new ≡ false) (unlocked : Unlocked s i id)
    (undisputed : Undisputed s i new) (move : Moves (find_ride (view (world_of s i)) id) new)
    (touched : (x : ℕ) → touches x (writes_of s' i) ≡ (touches x (writes_of s i) || id == x))
    (here : find_ride (view (world_of s' i)) id ≡ some new)
    (elsewhere : (x : ℕ)
      → (x == id) ≡ false
      → find_ride (view (world_of s' i)) x ≡ find_ride (view (world_of s i)) x) where
  other_id :
      (j b : ℕ) (q : Ride)
      → (b == id) ≡ false
      → find_ride (view (world_of s j)) b ≡ some q
      → (q.id == new.id) ≡ false
  other_id j b q n found =
      ground (arith, n, new_id, find_by_key b q (view (world_of s j)).rides found)

  fits : (b : ℕ) (q : Ride) → (b == id) ≡ false → seen (versions s) i b ≡ some q → Compatible new q
  fits b q n h =
      let found : find_ride (view (world_of s i)) b ≡ some q =
        sym (seen-versions s i b present) ∙ h in
      Compatible-of_clashes new q (other_id i b q n found)
        (clashes-of_check new q b (view (world_of s i)).rides checked found)

  beside_others :
      (j b : ℕ) (q : Ride) → (j == i) ≡ false → (versions s).own j b ≡ some q → Compatible new q
  beside_others j b q n h =
      let (t, found) = own-some s j b q h in
      let far : (b == id) ≡ false = elim (Bool-cases (b == id)) [
        | inr m ↦ m
        | inl e ↦ clash_of (rw ((==_iff b id).0 e) at t) (unlocked j n)
      ] in
      Compatible-of_clashes new q (other_id j b q far found) (undisputed j b q n t found)
    where
      clash_of : {x y : Bool} → x ≡ true → x ≡ false → y ≡ false
      clash_of p q = cc

  may_write : MayWrite (versions s) i id new
  may_write = record {
    unlocked = λ j n. own-untouched s j id (unlocked j n);
    fits = fits;
    undisputed = beside_others;
    move = subst (λ o. Moves o new) (sym (seen-versions s i id present)) move;
  }

  still : (x : ℕ) → (x == id) ≡ false → (versions s').own i x ≡ (versions s).own i x
  still x n = elim (Bool-cases (touches x (writes_of s i))) [
    | inl e ↦
        own-touched s' i x (ground (arith, touched x, e))
        ∙ elsewhere x n
        ∙ sym (own-touched s i x e)
    | inr e ↦ own-untouched s' i x (ground (arith, touched x, e, n)) ∙ sym (own-untouched s i x e)
  ]

  pub write-RowStep : RowStep (versions s) (versions s')
  write-RowStep =
      writes i id new may_write (turn-SameBase s s' i turn same) (turn-SameOthers s s' i turn same)
        (own-touched s' i id (ground (arith, touched id)) ∙ here) still

  pub write-Present : Present s' i
  write-Present x e = elim (Bool-cases (x == id)) [
    | inl h ↦ (new, rw ((==_iff x id).0 h) here)
    | inr n ↦
        let (r, found) = present x (ground (arith, touched x, e, n)) in (r, elsewhere x n ∙ found)
  ]
