-- ===== src/Pricing/Bounds.antt =====
-- The range of the multiplier, and how it moves with demand and supply.
use realtime_ride_matching_e.Prelude.{ℕ, ◌≤◌, ◌≡◌, true, max, arith, inl, inr, Bool-cases}
use realtime_ride_matching_e.Floats.{Float, Floats, Kinds, IsOrdered, Le}
use realtime_ride_matching_e.Config.{Env}
use realtime_ride_matching_e.Pricing.{surge_multiplier, max_float, min_float}

module _ (f : Floats) (k : Kinds) (laws : IsOrdered f k) where
  Le-refl : (a : Float) → Le f a a
  Le-refl a = elim (Bool-cases (f.lt a a)) [ inl e ↦ laws.lt_asymm a a e | inr e ↦ e ]

  Le-min_float : (a b c : Float) → Le f c a → Le f c b → Le f c (min_float f a b)
  Le-min_float a b c p q = ground arith

  min_float-le : (a b : Float) → Le f (min_float f a b) b
  min_float-le a b = ground (arith, Le-refl b)

  Le-max_float : (a b : Float) → Le f b (max_float f a b)
  Le-max_float a b = ground (arith, Le-refl b)

  max_float_mono :
      (a b c : Float)
      → k.is_number a ≡ true
      → k.is_number b ≡ true
      → k.is_number c ≡ true
      → Le f a b
      → Le f (max_float f a c) (max_float f b c)
  max_float_mono a b c na nb nc h =
      ground (arith, Le-refl c, laws.lt_asymm b c, laws.le_trans a b c na nb nc h)

  min_float_mono :
      (a b c : Float)
      → k.is_number a ≡ true
      → k.is_number b ≡ true
      → k.is_number c ≡ true
      → Le f a b
      → Le f (min_float f a c) (min_float f b c)
  min_float_mono a b c na nb nc h =
      ground (arith, Le-refl c, laws.lt_asymm c a, laws.le_trans c a b nc na nb)

module _ (env : Env) (k : Kinds) (laws : IsOrdered env.floats k) where
  one : k.is_number (env.floats.decimal 10 1) ≡ true
  one = laws.finite_number _ (laws.finite_decimal 10 1)

  ratio :
      (n m : ℕ)
      → k.is_finite (env.floats.div (env.floats.of_int n) (env.floats.of_int (max m 1))) ≡ true
  ratio n m = laws.finite_ratio n (max m 1) (omega arith)

  module _ (fin : k.is_finite env.settings.surge_sensitivity ≡ true) where
    scaled :
        (n m : ℕ)
        → k.is_number (
            env.floats.mul env.settings.surge_sensitivity
              (env.floats.div (env.floats.of_int n) (env.floats.of_int (max m 1))))
          ≡ true
    scaled n m = laws.number_mul _ _ fin (ratio n m)

    raw :
        (n m : ℕ)
        → k.is_number (
            env.floats.add (env.floats.decimal 10 1) (
              env.floats.mul env.settings.surge_sensitivity
                (env.floats.div (env.floats.of_int n) (env.floats.of_int (max m 1)))))
          ≡ true
    raw n m = laws.number_add _ _ one (scaled n m)

    raised :
        (n m : ℕ)
        → k.is_number (
            max_float env.floats
              (env.floats.add (env.floats.decimal 10 1) (
                env.floats.mul env.settings.surge_sensitivity
                  (env.floats.div (env.floats.of_int n) (env.floats.of_int (max m 1)))))
              (env.floats.decimal 10 1))
          ≡ true
    raised n m = ground (arith, one, raw n m)

  -- With a finite sensitivity that is not negative, and a maximum that is a number and at least 1.0,
  -- the multiplier is a number, at least 1.0 and at most the maximum.
  pub surge_multiplier_bounds :
      (demand supply : ℕ)
      → k.is_finite env.settings.surge_sensitivity ≡ true
      → k.is_number env.settings.surge_max_multiplier ≡ true
      → Le env.floats (env.floats.decimal 10 1) env.settings.surge_max_multiplier
      → (k.is_number (surge_multiplier env demand supply) ≡ true)
        × Le env.floats (env.floats.decimal 10 1) (surge_multiplier env demand supply)
        × Le env.floats (surge_multiplier env demand supply) env.settings.surge_max_multiplier
  unfolding surge_multiplier
  surge_multiplier_bounds demand supply fin num h = (
    ground (arith, num, raised fin demand supply),
    Le-min_float env.floats k laws _ _ _ (Le-max_float env.floats k laws _ _) h,
    min_float-le env.floats k laws _ _,
  )

  -- With a finite sensitivity that is not negative and a maximum that is a number, more demand and less
  -- supply never lower the multiplier, a zone without drivers included.
  pub surge_multiplier_mono :
      (demand demand' supply supply' : ℕ)
      → k.is_finite env.settings.surge_sensitivity ≡ true
      → k.is_number env.settings.surge_max_multiplier ≡ true
      → demand ≤ demand'
      → supply' ≤ supply
      → Le env.floats (surge_multiplier env demand supply) (surge_multiplier env demand' supply')
  unfolding surge_multiplier
  surge_multiplier_mono d d' s s' fin num hd hs =
      min_float_mono env.floats k laws _ _ _ (raised fin d s) (raised fin d' s') num (
        max_float_mono env.floats k laws _ _ _ (raw fin d s) (raw fin d' s') one (
          laws.add_mono _ _ _ one (scaled fin d s) (scaled fin d' s') (
            laws.mul_mono _ _ _ fin (ratio d s) (ratio d' s')
              (laws.div_mono d d' (max s 1) (max s' 1) (omega arith) hd (omega arith)))))
