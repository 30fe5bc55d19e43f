-- ===== src/Observability/Percentiles.antt =====
-- observability/percentiles.py, with sorted() and statistics.quantiles(n=100, method="inclusive") of
-- the standard library: the cut point i is a weighted mean of two neighbours, in floats.
use realtime_ride_matching_e.Prelude.{
  ℕ, zero, suc, ◌+◌, ◌-◌, ◌*◌, ◌/◌, ◌%◌, List, [], ◌∷◌, if◌then◌else◌, length, min, max,
}
use realtime_ride_matching_e.Floats.{Float, Floats}

abbrev pub get_or : List Float → ℕ → Float → Float
get_or [] i d = d
get_or (x ∷ xs) zero d = x
get_or (x ∷ xs) (suc i) d = get_or xs i d

module _ (f : Floats) where
  -- quantiles' loop body: j, delta = divmod(i * m, n), with m = len(data) - 1 and n = 100
  unfoldable pub cut_point : List Float → ℕ → Float
  cut_point values i =
      let m = length values - 1 in
      let j = i * m / 100 in
      let delta = i * m % 100 in
      f.div
        (f.add (f.mul (get_or values j (f.of_int 0)) (f.of_int (100 - delta)))
          (f.mul (get_or values (j + 1) (f.of_int 0)) (f.of_int delta)))
        (f.of_int 100)

  -- `quantiles` has the 99 cut points 1 to 99, so its index k is cut point k + 1.
  unfoldable pub percentile : List Float → ℕ → Float
  unfolding cut_point
  percentile [] pct = f.decimal 0 1
  percentile (x ∷ []) pct = x
  percentile (x ∷ y ∷ rest) pct = cut_point (x ∷ y ∷ rest) (min (max (pct - 1) 0) 98 + 1)

  -- sorted(...)
  unfoldable pub insert_sorted : Float → List Float → List Float
  insert_sorted a [] = a ∷ []
  insert_sorted a (x ∷ xs) = if f.lt x a then x ∷ insert_sorted a xs else a ∷ x ∷ xs

  unfoldable pub sorted : List Float → List Float
  unfolding insert_sorted
  sorted [] = []
  sorted (x ∷ xs) = insert_sorted x (sorted xs)
