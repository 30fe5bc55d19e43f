-- ===== src/Matching/Order.antt =====
-- app/matching/ranking.py: what the sort does to the candidates.
use realtime_ride_matching_e.Prelude.{
  subst, ◌≡◌, true, false, List, [], ◌∷◌, inl, inr, Bool-cases, if◌then◌else◌,
}
use mathlib.Core.List.{Perm}
use mathlib.Core.List.Perm
use realtime_ride_matching_e.Floats.{Float, Floats, Le}
use realtime_ride_matching_e.Matching.Ranking.{Candidate, insert_ranked, sort_ranked}

-- Nobody is nearer than the candidate just before.
abbrev pub IsRanked : Floats → List Candidate → Type 0
IsRanked f [] = Unit
IsRanked f (c ∷ []) = Unit
IsRanked f (c ∷ d ∷ cs) = Le f c.distance_km d.distance_km × IsRanked f (d ∷ cs)

insert_ranked-Perm :
    (f : Floats) (c : Candidate) (cs : List Candidate) → Perm (insert_ranked f c cs) (c ∷ cs)
unfolding insert_ranked
insert_ranked-Perm f c [] = Perm.refl (c ∷ [])
insert_ranked-Perm f c (x ∷ xs) = elim (Bool-cases (f.lt x.distance_km c.distance_km)) [
  | inl e ↦ rw e (Perm.trans (Perm.cons x (insert_ranked-Perm f c xs)) (Perm.swap c x xs))
  | inr e ↦ rw e (Perm.refl (c ∷ x ∷ xs))
]

pub sort_ranked-Perm : (f : Floats) (cs : List Candidate) → Perm (sort_ranked f cs) cs
unfolding sort_ranked
sort_ranked-Perm f [] = Perm.refl []
sort_ranked-Perm f (c ∷ cs) =
    Perm.trans (insert_ranked-Perm f c (sort_ranked f cs)) (Perm.cons c (sort_ranked-Perm f cs))

module _ (f : Floats) (lt_asymm : (a b : Float) → f.lt a b ≡ true → f.lt b a ≡ false) where
  insert_ranked-IsRanked :
      (c : Candidate) (cs : List Candidate) → IsRanked f cs → IsRanked f (insert_ranked f c cs)
  unfolding insert_ranked
  insert_ranked-IsRanked c [] h = tt
  insert_ranked-IsRanked c (x ∷ []) h = elim (Bool-cases (f.lt x.distance_km c.distance_km)) [
    | inl e ↦ rw e (lt_asymm x.distance_km c.distance_km e, tt)
    | inr e ↦ rw e (e, tt)
  ]
  insert_ranked-IsRanked c (x ∷ y ∷ ys) h =
      let rest = insert_ranked-IsRanked c (y ∷ ys) h.1 in
      elim (Bool-cases (f.lt x.distance_km c.distance_km)) [
        | inl e ↦ rw e (elim (Bool-cases (f.lt y.distance_km c.distance_km)) [
          | inl e' ↦ rw e' (
            h.0,
            subst (λ b. IsRanked f (if b then y ∷ insert_ranked f c ys else c ∷ y ∷ ys)) e' rest,
          )
          | inr e' ↦ rw e' (lt_asymm x.distance_km c.distance_km e, (e', h.1))
        ])
        | inr e ↦ rw e (e, h)
      ]

  pub sort_ranked-IsRanked : (cs : List Candidate) → IsRanked f (sort_ranked f cs)
  unfolding sort_ranked
  sort_ranked-IsRanked [] = tt
  sort_ranked-IsRanked (c ∷ cs) =
      insert_ranked-IsRanked c (sort_ranked f cs) (sort_ranked-IsRanked cs)
