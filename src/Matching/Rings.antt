-- ===== src/Matching/Rings.antt =====
-- The rings of app/matching/geo.py around a cell, and the drivers that they add.
use realtime_ride_matching_e.Prelude.{
  ◌∙◌, ℕ, suc, ◌+◌, ◌≤◌, ◌≡◌, refl, true, Bool, not, ◌&&◌, List, [], ◌∷◌, ◌++◌, arith, contains,
  select, length, ap, sym, append_nil, append_assoc, length-append, ◌==◌, put_by, find_by, none,
  inl, inr, Bool-cases, if◌then◌else◌,
}
use mathlib.Core.List.{Perm, perm_middle}
use mathlib.Core.List.Perm
use realtime_ride_matching_e.Config.{Env}
use realtime_ride_matching_e.Program.Effects.{put_all, as_objects}
use realtime_ride_matching_e.Matching.Geo.{set_of, difference, cells_within_ring}

contains-set_of : (c : ℕ) (xs : List ℕ) → contains c (set_of xs) ≡ contains c xs
unfolding set_of
contains-set_of c [] = refl
contains-set_of c (x ∷ xs) = ground (arith, contains-set_of c xs, contains-set_of x xs)

contains-difference :
    (c : ℕ) (outer inner : List ℕ)
    → contains c (difference outer inner) ≡ (contains c outer && not (contains c inner))
unfolding difference
contains-difference c [] inner = refl
contains-difference c (x ∷ xs) inner = ground (arith, contains-difference c xs inner)

-- Ring 0 is the disk of radius 0; a later ring is what its disk adds to the one before.
pub ring_zero :
    (env : Env) (cell c : ℕ)
    → contains c (cells_within_ring env cell 0) ≡ contains c (env.grid_disk cell 0)
unfolding cells_within_ring
ring_zero env cell c = contains-set_of c (env.grid_disk cell 0)

pub ring_suc :
    (env : Env) (cell k c : ℕ)
    → contains c (cells_within_ring env cell (suc k))
      ≡ (contains c (env.grid_disk cell (suc k)) && not (contains c (env.grid_disk cell k)))
unfolding cells_within_ring
ring_suc env cell k c =
    contains-difference c (set_of (env.grid_disk cell (suc k))) (set_of (env.grid_disk cell k))
    ∙ rw (contains-set_of c (env.grid_disk cell (suc k)), contains-set_of c (env.grid_disk cell k))
        refl

module _ {A : Type 0} where
  pub select_cong :
      (p q : A → Bool) (xs : List A) → ((x : A) → p x ≡ q x) → select p xs ≡ select q xs
  select_cong p q [] h = refl
  select_cong p q (x ∷ xs) h = ground (arith, h x, select_cong p q xs h)

  -- What a larger test adds to a smaller one.
  pub select_added :
      (p q : A → Bool) (xs : List A)
      → ((x : A) → p x ≡ true → q x ≡ true)
      → Perm (select p xs ++ select (λ x. q x && not (p x)) xs) (select q xs)
  select_added p q [] h = Perm.refl []
  select_added p q (x ∷ xs) h =
      let rest = select_added p q xs h in
      elim (Bool-cases (p x)) [
        | inl e ↦ rw (e, h x e) (Perm.cons x rest)
        | inr e ↦ elim (Bool-cases (q x)) [
          | inl e' ↦
              rw (e, e')
                (Perm.trans (perm_middle (select p xs) (select (λ x. q x && not (p x)) xs))
                  (Perm.cons x rest))
          | inr e' ↦ rw (e, e') rest
        ]
      ]

-- How many items have a key.
abbrev pub tally : {A : Type 0} → (A → ℕ) → ℕ → List A → ℕ
tally key k [] = 0
tally key k (x ∷ xs) = let rest = tally key k xs in if key x == k then rest + 1 else rest

module _ {A : Type 0} (key : A → ℕ) where
  pub tally-append :
      (k : ℕ) (xs ys : List A) → tally key k (xs ++ ys) ≡ tally key k xs + tally key k ys
  tally-append k [] ys = omega arith
  tally-append k (x ∷ xs) ys = ground (arith, tally-append k xs ys)

  -- No item has the key.
  find_by_absent : (k : ℕ) (xs : List A) → tally key k xs ≡ 0 → find_by key k xs ≡ none
  find_by_absent k [] h = refl
  find_by_absent k (x ∷ xs) h = ground (arith, h, find_by_absent k xs)

  put_by_absent :
      (a : A) (xs : List A) → tally key (key a) xs ≡ 0 → put_by key a xs ≡ (xs ++ a ∷ [])
  put_by_absent a [] h = refl
  put_by_absent a (x ∷ xs) h = ground (arith, h, put_by_absent a xs)

  -- New keys go to the end, and a row whose key is not in the map is its own object.
  pub put_all_fresh :
      (xs ys : List A)
      → ((k : ℕ) → tally key k xs + tally key k ys ≤ 1)
      → put_all key xs ys ≡ (xs ++ ys)
  put_all_fresh xs [] h = sym (append_nil xs)
  put_all_fresh xs (y ∷ ys) h =
      let absent : tally key (key y) xs ≡ 0 = ground (arith, h (key y)) in
      ap (λ zs. put_all key zs ys) (put_by_absent y xs absent)
      ∙ put_all_fresh (xs ++ y ∷ []) ys (λ k. ground (arith, h k, tally-append k xs (y ∷ [])))
      ∙ append_assoc xs (y ∷ []) ys

  pub as_objects_absent :
      (objects rows : List A)
      → ((k : ℕ) → tally key k objects + tally key k rows ≤ 1)
      → as_objects key objects rows ≡ rows
  as_objects_absent objects [] h = refl
  as_objects_absent objects (x ∷ rows) h =
      let absent : tally key (key x) objects ≡ 0 = ground (arith, h (key x)) in
      rw (find_by_absent (key x) objects absent, as_objects)
        (ap (λ rest. x ∷ rest) (as_objects_absent objects rows (λ k. ground (arith, h k))))

  pub tally-select_le :
      (k : ℕ) (p : A → Bool) (xs : List A) → tally key k (select p xs) ≤ tally key k xs
  tally-select_le k p [] = omega arith
  tally-select_le k p (x ∷ xs) = ground (arith, tally-select_le k p xs)

  pub select_added-tally :
      (k : ℕ) (p q : A → Bool) (xs : List A)
      → ((x : A) → p x ≡ true → q x ≡ true)
      → tally key k (select p xs) + tally key k (select (λ x. q x && not (p x)) xs)
        ≡ tally key k (select q xs)
  select_added-tally k p q [] h = omega arith
  select_added-tally k p q (x ∷ xs) h = ground (arith, h x, select_added-tally k p q xs h)

module _ {A : Type 0} where
  pub select_added-length :
      (p q : A → Bool) (xs : List A)
      → ((x : A) → p x ≡ true → q x ≡ true)
      → length (select p xs ++ select (λ x. q x && not (p x)) xs) ≡ length (select q xs)
  select_added-length p q [] h = refl
  select_added-length p q (x ∷ xs) h = ground (
    arith,
    h x,
    select_added-length p q xs h,
    length-append (select p xs) (select (λ x. q x && not (p x)) xs),
    length-append (select p xs) (x ∷ select (λ x. q x && not (p x)) xs),
  )
