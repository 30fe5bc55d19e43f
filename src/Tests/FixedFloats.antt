-- ===== src/Tests/FixedFloats.antt =====
-- Arithmetic in thousandths in place of floats: it has the laws that the proofs ask for.
use realtime_ride_matching_e.Prelude.{
  ℕ, zero, suc, ◌+◌, ◌-◌, ◌*◌, ◌/◌, ◌≤◌, ◌<◌, refl, true, ltb, ◌==◌, arith,
}
use native.Mathlib.Nat.{le-div_iff_mul-le, div-mul-le_self, mul-le-mul_left}
use realtime_ride_matching_e.Floats.{Floats, Kinds, IsOrdered}

abbrev power : ℕ → ℕ
power zero = 1
power (suc d) = 10 * power d

abbrev quotient : ℕ → ℕ → ℕ
quotient a zero = 0
quotient a (suc b) = a / suc b

abbrev pub fixed : Floats
fixed = record {
  decimal = λ n d. quotient (n * 1000) (power d);
  of_int = λ n. n * 1000;
  add = λ a b. a + b;
  sub = λ a b. a - b;
  mul = λ a b. a * b / 1000;
  div = λ a b. quotient (a * 1000) b;
  lt = λ a b. ltb a b;
  eq = λ a b. a == b;
  radians = λ a. a;
  sin = λ a. a;
  cos = λ a. 1000;
  atan2 = λ a b. a;
  sqrt = λ a. a;
  hypot = λ a b. a + b;
  round = λ a n. a;
  infinity = 1000000000000;
}

abbrev pub fixed_kinds : Kinds
fixed_kinds = record { is_finite = λ a. true; is_number = λ a. true }

quotient_mono : (a b c d : ℕ) → 0 < d → a ≤ b → d ≤ c → quotient a c ≤ quotient b d
quotient_mono a b zero d p h k = omega arith
quotient_mono a b (suc c) zero p h k = omega arith
quotient_mono a b (suc c) (suc d) p h k =
    let x = a / suc c in
    (le-div_iff_mul-le p).1 (omega (arith, div-mul-le_self a (suc c), mul-le-mul_left x k, h))

scaled_mono : (a b c : ℕ) → b ≤ c → a * b / 1000 ≤ a * c / 1000
scaled_mono a b c h = omega (arith, mul-le-mul_left a h)

pub fixed-IsOrdered : IsOrdered fixed fixed_kinds
fixed-IsOrdered = record {
  finite_number = λ a h. refl;
  finite_decimal = λ n d. refl;
  finite_ratio = λ m n h. refl;
  number_add = λ a b p q. refl;
  number_mul = λ a b p q. refl;
  lt_asymm = λ a b h. ground arith;
  le_trans = λ a b c p q r h k. ground arith;
  add_mono = λ a b c p q r h. ground arith;
  mul_mono = λ a b c p q r h. ground (arith, scaled_mono a b c);
  div_mono = λ m n s t p h k.
      ground (arith, quotient_mono (m * 1000 * 1000) (n * 1000 * 1000) (s * 1000) (t * 1000));
}
