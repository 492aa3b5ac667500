-- ===== src/Fractional/Midpoint/Digits.antt =====
-- midpoint of crates/scene-core/src/fractional.rs where the first digits differ or there is no upper bound.
use shape_ai.Common.{
  ℕ, zero, suc, ◌+◌, ◌/◌, ◌≤◌, ◌<◌, ◌≡◌, refl, inl, inr, [], ◌∷◌, true, false, Option, none, some,
  arith, ltb, length, Bool-cases, tests,
}
use shape_ai.Common.Str.{Str, str_lt}
use shape_ai.Common.Result.{ok}
use shape_ai.Fractional.Digits.{
  digit_at, digit_index, digit_index-lt, digit_at-digit_index, digit_index_mono,
}
use shape_ai.Fractional.{
  ends_in_zero, rest_of, common_prefix, check_bounds, mid_digit, midpoint_loop, first_digit,
  upper_digit,
}
use shape_ai.Fractional.Midpoint.Between.{
  IsDigits, IsBetween, Finds, IsDigit-digit_at, digit_at_pos, zero_letter, ends_in_zero-rest,
  ends_in_zero-cons, nonempty_of_lt, mid_digit-wide, mid_digit-head, mid_digit-deeper, above_digit,
  below_digit, IsBetween-wide,
}

-- The midpoint with no upper bound.
pub Finds-none :
    (fuel : ℕ) (a : Str) → length a < fuel → IsDigits a → ends_in_zero a ≡ false → Finds fuel a none
unfolding midpoint_loop check_bounds
Finds-none zero a h ds z = absurd (omega arith)
Finds-none (suc fuel) [] h ds z = (
  digit_at 31 ∷ [],
  mid_digit-wide [] none 0 62 _ refl refl (omega arith),
  IsBetween-wide [] none 0 62 refl refl (omega arith) (omega arith),
)
Finds-none (suc fuel) (c ∷ a) h ((d, e), ds) z = elim (Bool-cases (ltb (d + 1) 62)) [
  | inl wide ↦ (
    digit_at ((d + 62 + 1) / 2) ∷ [],
    rw z (mid_digit-wide (c ∷ a) none d 62 _ e refl (omega tests)),
    IsBetween-wide (c ∷ a) none d 62 e refl (omega tests) (omega arith),
  )
  | inr narrow ↦
      let (m, run, between) = Finds-none fuel a (omega arith) ds (ends_in_zero-rest c a z) in
      let last : d + 1 ≡ 62 = ground (arith, digit_index-lt c d e) in
      (
        digit_at d ∷ m,
        rw z (mid_digit-deeper (c ∷ a) none d 62 _ e refl m last refl run),
        record {
          above = ground (arith, digit_at-digit_index c d e, between.above);
          below = refl;
          digits = (IsDigit-digit_at d (omega arith), between.digits);
          no_zero =
              ends_in_zero-cons (digit_at d) m (nonempty_of_lt a m between.above) between.no_zero;
        },
      )
]

-- The first letters of strings that share no prefix.
apart_digits :
    (a b : Str) (y dy : ℕ)
    → common_prefix a (y ∷ b) ≡ 0
    → str_lt a (y ∷ b) ≡ true
    → IsDigits a
    → digit_index y ≡ ok dy
    → (da : ℕ) × (first_digit a 0 ≡ ok da) × (da < dy)
unfolding common_prefix
apart_digits [] b y dy apart lt ds e =
    (0, refl, ground (arith, digit_at-digit_index y dy e, zero_letter))
apart_digits (c ∷ a) b y dy apart lt ((d, k), ds) e =
    (d, k, digit_index_mono c y d dy k e (ground arith))

-- A letter deeper: any fraction above the rest of `a`, behind the first digit of `a`.
IsBetween-deeper :
    (a : Str) (b : Option Str) (da db : ℕ) (m : Str)
    → first_digit a 0 ≡ ok da
    → upper_digit b ≡ ok db
    → da < db
    → db ≤ 62
    → IsBetween (rest_of a) none m
    → IsBetween a b (digit_at da ∷ m)
IsBetween-deeper a b da db m ea eb less top between = record {
  above = above_deeper a ea between.above;
  below = below_digit b m db da eb less top;
  digits = (IsDigit-digit_at da (omega arith), between.digits);
  no_zero =
      ends_in_zero-cons (digit_at da) m (nonempty_of_lt (rest_of a) m between.above)
        between.no_zero;
}
  where
    above_deeper :
        (s : Str)
        → first_digit s 0 ≡ ok da
        → str_lt (rest_of s) m ≡ true
        → str_lt s (digit_at da ∷ m) ≡ true
    above_deeper [] e h = refl
    above_deeper (c ∷ s) e h = ground (arith, digit_at-digit_index c da e)

ends_in_zero-rest_of : (a : Str) → ends_in_zero a ≡ false → ends_in_zero (rest_of a) ≡ false
ends_in_zero-rest_of [] z = refl
ends_in_zero-rest_of (c ∷ a) z = ends_in_zero-rest c a z

IsDigits-rest_of : (a : Str) → IsDigits a → IsDigits (rest_of a)
IsDigits-rest_of [] d = tt
IsDigits-rest_of (c ∷ a) d = d.1

length-rest_of : (a : Str) (n : ℕ) → length a ≤ n → 0 < n → length (rest_of a) < n
length-rest_of [] n h k = k
length-rest_of (c ∷ a) n h k = h

-- The bounds differ in their first letters, which are neighbours.
Finds-narrow :
    (fuel : ℕ) (a : Str) (y : ℕ) (b : Str) (da dy : ℕ)
    → length a ≤ fuel
    → 0 < fuel
    → IsDigits a
    → IsDigits (y ∷ b)
    → ends_in_zero a ≡ false
    → ends_in_zero (y ∷ b) ≡ false
    → first_digit a 0 ≡ ok da
    → digit_index y ≡ ok dy
    → da + 1 ≡ dy
    → (m : Str) × (mid_digit a (some (y ∷ b)) (midpoint_loop fuel (rest_of a) none) ≡ ok m)
      × IsBetween a (some (y ∷ b)) m
Finds-narrow fuel a y [] da dy room some_fuel dsa dsb za zb ea ey next =
    let (m, run, between) =
      Finds-none fuel (rest_of a) (length-rest_of a fuel room some_fuel) (IsDigits-rest_of a dsa)
        (ends_in_zero-rest_of a za) in
    (
      digit_at da ∷ m,
      mid_digit-deeper a (some (y ∷ [])) da dy _ ea ey m next refl run,
      IsBetween-deeper a (some (y ∷ [])) da dy m ea ey (omega arith)
          (omega (arith, digit_index-lt y dy ey)) between,
    )
Finds-narrow fuel a y (c ∷ b) da dy room some_fuel dsa dsb za zb ea ey next =
    let same = digit_at-digit_index y dy ey in
    (
      y ∷ [],
      mid_digit-head a (some (y ∷ c ∷ b)) da dy _ ea ey (y ∷ []) next refl,
      record {
        above = rw same at (above_digit a [] da dy ea (omega arith) (digit_index-lt y dy ey));
        below = ground arith;
        digits = ((dy, ey), tt);
        no_zero = rw same at (digit_at_pos dy (omega arith) (digit_index-lt y dy ey));
      },
    )

-- The bounds differ in their first letters.
pub Finds-apart :
    (fuel : ℕ) (a b : Str)
    → length a ≤ fuel
    → 0 < fuel
    → common_prefix a b ≡ 0
    → str_lt a b ≡ true
    → IsDigits a
    → IsDigits b
    → ends_in_zero a ≡ false
    → ends_in_zero b ≡ false
    → Finds (suc fuel) a (some b)
unfolding midpoint_loop check_bounds
Finds-apart fuel a [] room some_fuel apart lt da db za zb = cc
Finds-apart fuel a (y ∷ b) room some_fuel apart lt dsa ((dy, ey), dsb) za zb =
    let (da, ea, less) = apart_digits a b y dy apart lt dsa ey in
    elim (Bool-cases (ltb (da + 1) dy)) [
      | inl wide ↦ (
        digit_at ((da + dy + 1) / 2) ∷ [],
        rw (apart, lt, za, zb) (mid_digit-wide a (some (y ∷ b)) da dy _ ea ey (omega tests)),
        IsBetween-wide a (some (y ∷ b)) da dy ea ey (omega tests)
            (omega (arith, digit_index-lt y dy ey)),
      )
      | inr narrow ↦
          let (m, run, between) =
            Finds-narrow fuel a y b da dy room some_fuel dsa ((dy, ey), dsb) za zb ea ey
              (ground arith) in
          (m, rw (apart, lt, za, zb) run, between)
    ]
