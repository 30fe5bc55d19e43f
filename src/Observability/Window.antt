-- ===== src/Observability/Window.antt =====
-- collections.deque(maxlen=n), oldest entry first.
use realtime_ride_matching_e.Prelude.{
  ℕ, ◌≤◌, List, [], ◌∷◌, ◌++◌, ltb, if◌then◌else◌, length, length-append, arith,
}

abbrev pub tail {ℓ} : {A : Type ℓ} → List A → List A
tail [] = []
tail (x ∷ xs) = xs

-- append: where the deque is full the oldest entry falls out (a deque of no entry stays empty).
unfoldable pub push {ℓ} : {A : Type ℓ} → ℕ → List A → A → List A
push n xs x = if ltb (length xs) n then xs ++ x ∷ [] else tail (xs ++ x ∷ [])

-- The window never grows past its size.
pub length-push {ℓ} :
    {A : Type ℓ} (n : ℕ) (xs : List A) (x : A) → length xs ≤ n → length (push n xs x) ≤ n
unfolding push
length-push n [] x h = ground arith
length-push n (y ∷ ys) x h = ground (arith, length-append ys (x ∷ []))
