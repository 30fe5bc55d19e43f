-- ===== src/Prelude/Lists.antt =====
-- Lists measured by native numbers, with Boolean tests.
use Prim.Native.Nat.{ℕ, suc, ◌+◌}
use mathlib.Core.Path.{◌≡◌, refl, ap}
use mathlib.Core.Bool.{Bool, false, ◌||◌}
use mathlib.Core.Option.{Option, none, some}
use mathlib.Core.List.{List, [], ◌∷◌, ◌++◌}
use native.Mathlib.Omega.{arith}
use package.realtime_ride_matching_e.Prelude.Tests.{◌==◌, if◌then◌else◌}

module _ {ℓ} {A : Type ℓ} where
  abbrev pub length : List A → ℕ
  length [] = 0
  length (x ∷ xs) = suc (length xs)

  -- [x for x in xs if keep(x)]
  abbrev pub select : (A → Bool) → List A → List A
  select keep [] = []
  select keep (x ∷ xs) = let rest = select keep xs in if keep x then x ∷ rest else rest

  abbrev pub any : (A → Bool) → List A → Bool
  any test [] = false
  any test (x ∷ xs) = test x || any test xs

  -- The first item whose key is `k`.
  abbrev pub find_by : (A → ℕ) → ℕ → List A → Option A
  find_by key k [] = none
  find_by key k (x ∷ xs) = if key x == k then some x else find_by key k xs

  -- Every item whose key is `k` is replaced by its image.
  abbrev pub modify_by : (A → ℕ) → ℕ → (A → A) → List A → List A
  modify_by key k f [] = []
  modify_by key k f (x ∷ xs) = (if key x == k then f x else x) ∷ modify_by key k f xs

  -- A dict keyed by `key` in insertion order: an existing entry is replaced in its place.
  abbrev pub put_by : (A → ℕ) → A → List A → List A
  put_by key a [] = a ∷ []
  put_by key a (x ∷ xs) = if key x == key a then a ∷ xs else x ∷ put_by key a xs

abbrev pub contains : ℕ → List ℕ → Bool
contains k = any (λ x. x == k)

abbrev pub count : ℕ → List ℕ → ℕ
count k [] = 0
count k (x ∷ xs) = let rest = count k xs in if x == k then rest + 1 else rest

-- A predicate on every item.
abbrev pub All {ℓ κ} : {A : Type ℓ} → (A → Type κ) → List A → Type κ
All P [] = Unit
All P (x ∷ xs) = P x × All P xs

pub length-append {ℓ} : {A : Type ℓ} (xs ys : List A) → length (xs ++ ys) ≡ length xs + length ys
length-append [] ys = omega arith
length-append (x ∷ xs) ys = omega (arith, length-append xs ys)

pub append_nil {ℓ} : {A : Type ℓ} (xs : List A) → (xs ++ []) ≡ xs
append_nil [] = refl
append_nil (x ∷ xs) = ap (λ l. x ∷ l) (append_nil xs)

pub append_assoc {ℓ} : {A : Type ℓ} (xs ys zs : List A) → ((xs ++ ys) ++ zs) ≡ (xs ++ (ys ++ zs))
append_assoc [] ys zs = refl
append_assoc (x ∷ xs) ys zs = ap (λ l. x ∷ l) (append_assoc xs ys zs)

module _ {ℓ} {A : Type ℓ} (key : A → ℕ) where
  -- A modification that keeps the keys is seen at its key alone.
  pub find_by-modify_by :
      (k j : ℕ) (f : A → A) (xs : List A)
      → ((x : A) → key (f x) ≡ key x)
      → find_by key j (modify_by key k f xs) ≡ (
          if k == j
          then elim (find_by key j xs) [ none ↦ none | some x ↦ some (f x) ]
          else find_by key j xs)
  find_by-modify_by k j f [] h = ground arith
  find_by-modify_by k j f (x ∷ xs) h = ground (arith, h x, find_by-modify_by k j f xs h)

  pub find_by-modify_self :
      (k : ℕ) (f : A → A) (xs : List A) (a : A)
      → ((x : A) → key (f x) ≡ key x)
      → find_by key k xs ≡ some a
      → find_by key k (modify_by key k f xs) ≡ some (f a)
  find_by-modify_self k f xs a h e = ground (arith, find_by-modify_by k k f xs h, e)
