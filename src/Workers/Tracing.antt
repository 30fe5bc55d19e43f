-- ===== src/Workers/Tracing.antt =====
-- Every step leaves the committed rows as they are or carries them on along their lives.
use realtime_ride_matching_e.Prelude.{
  ℕ, ◌≡◌, sym, ◌∙◌, false, Option, none, some, ◌==◌, inl, inr, Bool-cases, arith, Option-cases,
  ==_iff,
}
use realtime_ride_matching_e.Models.{Ride}
use realtime_ride_matching_e.Workers.Versions.{
  Versions, seen, MayWrite, SameBase, SameOthers, Forgets, RowStep, stays, writes, publishes,
  discards,
}
use realtime_ride_matching_e.Workers.Consistency.{IsConsistent, none-ne-some}
use realtime_ride_matching_e.Workers.History.{Evolves, unchanged, then_moves}

-- Each uncommitted version has come from the committed one.
abbrev pub IsTraced : Versions → Type 0
IsTraced v = (i id : ℕ) (r : Ride) → v.own i id ≡ some r → Evolves (v.base id) (some r)

abbrev pub Advances : Versions → Versions → Type 0
Advances v v' = (id : ℕ) → Evolves (v.base id) (v'.base id)

Evolves-same : {o p q : Option Ride} → p ≡ o → Evolves o q → Evolves p q
Evolves-same e h = rw e h

seen-Evolves : (v : Versions) → IsTraced v → (i id : ℕ) → Evolves (v.base id) (seen v i id)
seen-Evolves v t i id = elim (Option-cases (v.own i id)) [
  | inl e ↦ rw e unchanged
  | inr (r, e) ↦ rw e (t i id r e)
]

module _ (v v' : Versions) (t : IsTraced v) where
  Advances-same : SameBase v v' → Advances v v'
  Advances-same e id = rw (e id) unchanged

  kept-Evolves :
      (i id : ℕ) (r : Ride)
      → SameBase v v'
      → v'.own i id ≡ v.own i id
      → v'.own i id ≡ some r
      → Evolves (v'.base id) (some r)
  kept-Evolves i id r e o h = Evolves-same (e id) (t i id r (sym o ∙ h))

  gone : (i j id : ℕ) (r : Ride) → Forgets v' i → (j ≡ i) → v'.own j id ≡ some r → ⊥
  gone i j id r f e h = let n : v'.own j id ≡ none = rw e (f id) in none-ne-some r (sym n ∙ h)

  discards-IsTraced : (i : ℕ) → SameBase v v' → SameOthers v v' i → Forgets v' i → IsTraced v'
  discards-IsTraced i e o f j id r h = elim (Bool-cases (j == i)) [
    | inl q ↦ absurd (gone i j id r f ((==_iff j i).0 q) h)
    | inr n ↦ kept-Evolves j id r e (o j id n) h
  ]

  publishes-IsTraced :
      (i : ℕ)
      → IsConsistent v
      → ((id : ℕ) → v'.base id ≡ seen v i id)
      → SameOthers v v' i
      → Forgets v' i
      → IsTraced v'
  publishes-IsTraced i c p o f j id r h = elim (Bool-cases (j == i)) [
    | inl q ↦ absurd (gone i j id r f ((==_iff j i).0 q) h)
    | inr n ↦
        let mine : v.own j id ≡ some r = sym (o j id n) ∙ h in
        let theirs : v.own i id ≡ none = c.apart j i id r (ground (arith, n)) mine in
        let same : v'.base id ≡ v.base id = p id ∙ rw theirs in Evolves-same same (t j id r mine)
  ]

  writes-IsTraced :
      (i id : ℕ) (new : Ride)
      → MayWrite v i id new
      → SameBase v v'
      → SameOthers v v' i
      → v'.own i id ≡ some new
      → ((x : ℕ) → (x == id) ≡ false → v'.own i x ≡ v.own i x)
      → IsTraced v'
  writes-IsTraced i id new may base others here elsewhere j x r h = elim (Bool-cases (j == i)) [
    | inr n ↦ kept-Evolves j x r base (others j x n) h
    | inl e ↦
        let j_is : j ≡ i = (==_iff j i).0 e in
        elim (Bool-cases (x == id)) [
          | inr m ↦
              let old : v'.own j x ≡ v.own j x = rw j_is (elsewhere x m) in
              kept-Evolves j x r base old h
          | inl q ↦
              let x_is : x ≡ id = (==_iff x id).0 q in
              let r_is : some r ≡ some new = cc in
              rw (x_is, r_is) (Evolves-same (base id) (then_moves (seen-Evolves v t i id) may.move))
        ]
  ]

-- With the constraints kept, every step carries the committed rows on, and the uncommitted versions
-- with them.
pub RowStep-IsTraced :
    {v v' : Versions} → RowStep v v' → IsConsistent v → IsTraced v → IsTraced v' × Advances v v'
RowStep-IsTraced {v} {v'} (stays e o) c t =
    (λ i id r h. kept-Evolves v v' t i id r e (o i id) h, Advances-same v v' t e)
RowStep-IsTraced {v} {v'} (writes i id new may base others here elsewhere) c t =
    (writes-IsTraced v v' t i id new may base others here elsewhere, Advances-same v v' t base)
RowStep-IsTraced {v} {v'} (publishes i p o f) c t =
    (publishes-IsTraced v v' t i c p o f, λ id. rw (p id) (seen-Evolves v t i id))
RowStep-IsTraced {v} {v'} (discards i e o f) c t =
    (discards-IsTraced v v' t i e o f, Advances-same v v' t e)
