-- ===== src/Floats.antt =====
-- Python floats (IEEE 754 doubles), carried by their 64-bit patterns. Their arithmetic and the
-- `math` functions are a parameter of the model; the laws that some proofs need are `IsOrdered`.
use realtime_ride_matching_e.Prelude.{ℕ, ◌≤◌, ◌<◌, ◌≡◌, Bool, true, false, ◌||◌}

abbrev pub Float : Type 0
Float = ℕ

pub record Floats : Type 0 where
  -- `decimal n d` is the literal n / 10^d.
  pub decimal : ℕ → ℕ → Float
  -- float(n) of an int
  pub of_int : ℕ → Float
  pub add : Float → Float → Float
  pub sub : Float → Float → Float
  pub mul : Float → Float → Float
  pub div : Float → Float → Float
  pub lt : Float → Float → Bool
  pub eq : Float → Float → Bool
  pub radians : Float → Float
  pub sin : Float → Float
  pub cos : Float → Float
  pub atan2 : Float → Float → Float
  pub sqrt : Float → Float
  pub hypot : Float → Float → Float
  -- round(x, ndigits)
  pub round : Float → ℕ → Float
  -- float("inf")
  pub infinity : Float

-- a <= b of the code
abbrev pub float_le : Floats → Float → Float → Bool
float_le f a b = f.lt a b || f.eq a b

-- Which floats are finite numbers ≥ 0, and which are numbers ≥ 0 or infinity.
pub record Kinds : Type 0 where
  pub is_finite : Float → Bool
  pub is_number : Float → Bool

-- a ≤ b, as the code can tell it: b < a fails
abbrev pub Le : Floats → Float → Float → Type 0
Le f a b = f.lt b a ≡ false

-- IEEE 754 on numbers ≥ 0: `<` orders them, and rounding keeps the order of exact results.
pub record IsOrdered (f : Floats) (k : Kinds) : Type 0 where
  pub finite_number : (a : Float) → k.is_finite a ≡ true → k.is_number a ≡ true
  pub finite_decimal : (n d : ℕ) → k.is_finite (f.decimal n d) ≡ true
  -- the quotient of two ints, the second of them positive
  pub finite_ratio : (m n : ℕ) → 0 < n → k.is_finite (f.div (f.of_int m) (f.of_int n)) ≡ true
  pub number_add :
      (a b : Float) → k.is_number a ≡ true → k.is_number b ≡ true → k.is_number (f.add a b) ≡ true
  pub number_mul :
      (a b : Float) → k.is_finite a ≡ true → k.is_finite b ≡ true → k.is_number (f.mul a b) ≡ true
  pub lt_asymm : (a b : Float) → f.lt a b ≡ true → f.lt b a ≡ false
  pub le_trans :
      (a b c : Float)
      → k.is_number a ≡ true
      → k.is_number b ≡ true
      → k.is_number c ≡ true
      → Le f a b
      → Le f b c
      → Le f a c
  pub add_mono :
      (a b c : Float)
      → k.is_number a ≡ true
      → k.is_number b ≡ true
      → k.is_number c ≡ true
      → Le f b c
      → Le f (f.add a b) (f.add a c)
  pub mul_mono :
      (a b c : Float)
      → k.is_finite a ≡ true
      → k.is_finite b ≡ true
      → k.is_finite c ≡ true
      → Le f b c
      → Le f (f.mul a b) (f.mul a c)
  -- a larger dividend over a smaller divisor
  pub div_mono :
      (m n s t : ℕ)
      → 0 < t
      → m ≤ n
      → t ≤ s
      → Le f (f.div (f.of_int m) (f.of_int s)) (f.div (f.of_int n) (f.of_int t))
