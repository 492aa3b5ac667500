-- ===== src/Fractional/Integer/Digits.antt =====
-- The carry over the digits of an integer part, for increment_integer and decrement_integer of crates/scene-core/src/fractional.rs.
use native.Mathlib.Decide.{ℕ_discrete}
use shape_ai.Common.{
  ℕ, suc, ◌+◌, ◌-◌, ◌<◌, ◌≡◌, refl, ap, [], ◌∷◌, Bool, true, false, arith, length, All,
}
use shape_ai.Common.Str.{Str, differs_below}
use shape_ai.Common.Result.{ok}
use shape_ai.Fractional.Digits.{
  digit_at, digit_index, digit_index-lt, digit_at-digit_index, digit_at-lt, zero_digit, max_digit,
}
use shape_ai.Fractional.{get_integer_length}
use shape_ai.Fractional.Midpoint.{IsDigit, IsDigits, IsDigit-digit_at}
use shape_ai.Fractional.Integer.Step.{
  increment_digit, increment_digits, decrement_digit, decrement_digits,
}

-- A head with as many digits as it announces.
abbrev pub IsInteger : Str → Type 0
IsInteger [] = ⊥
IsInteger (head ∷ s) = (get_integer_length head ≡ ok (suc (length s))) × IsDigits s

abbrev pub AllAre : ℕ → Str → Type 0
AllAre d s = All (λ c. c ≡ d) s

-- The digits went one up, or were all 'z'.
abbrev pub Rises : Str → Str → Bool → Type 0
Rises s t false = differs_below s t ≡ true
Rises s t true = AllAre max_digit s

abbrev pub Falls : Str → Str → Bool → Type 0
Falls s t false = differs_below t s ≡ true
Falls s t true = AllAre zero_digit s

pub record Moved (s t : Str) : Type 0 where
  pub same_length : length t ≡ length s
  pub digits : IsDigits t

max_letter : digit_at 61 ≡ max_digit
unfolding digit_at
max_letter = refl

pub min_letter : digit_at 0 ≡ zero_digit
unfolding digit_at
min_letter = refl

abbrev Increments : Str → Type 0
Increments s =
    (t : Str) × (carry : Bool) × (increment_digits s ≡ ok (t, carry)) × Moved s t × Rises s t carry

abbrev Decrements : Str → Type 0
Decrements s =
    (t : Str) × (carry : Bool) × (decrement_digits s ≡ ok (t, carry)) × Moved s t × Falls s t carry

module _ (c d : ℕ) (e : digit_index c ≡ ok d) (s t : Str) (moved : Moved s t) where
  Moved-cons : (c' : ℕ) → IsDigit c' → Moved (c ∷ s) (c' ∷ t)
  Moved-cons c' k = record { same_length = ap suc moved.same_length; digits = (k, moved.digits) }

  increment_digit_still : increment_digits s ≡ ok (t, false) → Rises s t false → Increments (c ∷ s)
  unfolding increment_digits increment_digit
  increment_digit_still run order = (c ∷ t, false, rw run, Moved-cons c (d, e), ground arith)

  increment_digit_over :
      d + 1 ≡ 62 → increment_digits s ≡ ok (t, true) → Rises s t true → Increments (c ∷ s)
  unfolding increment_digits increment_digit digit_index
  increment_digit_over over run order = (
    zero_digit ∷ t,
    true,
    rw (run, e) (ground arith),
    Moved-cons zero_digit (0, refl),
    (ground (arith, digit_at-digit_index c d e, max_letter), order),
  )

  increment_digit_under : d + 1 < 62 → increment_digits s ≡ ok (t, true) → Increments (c ∷ s)
  unfolding increment_digits increment_digit
  increment_digit_under under run = (
    digit_at (d + 1) ∷ t,
    false,
    rw (run, e) (ground arith),
    Moved-cons (digit_at (d + 1)) (IsDigit-digit_at (d + 1) under),
    ground (arith, digit_at-digit_index c d e, digit_at-lt d (d + 1) (omega arith) under),
  )

  decrement_digit_still : decrement_digits s ≡ ok (t, false) → Falls s t false → Decrements (c ∷ s)
  unfolding decrement_digits decrement_digit
  decrement_digit_still run order = (c ∷ t, false, rw run, Moved-cons c (d, e), ground arith)

  decrement_digit_over :
      d ≡ 0 → decrement_digits s ≡ ok (t, true) → Falls s t true → Decrements (c ∷ s)
  unfolding decrement_digits decrement_digit digit_index
  decrement_digit_over over run order = (
    max_digit ∷ t,
    true,
    rw (run, e) (ground arith),
    Moved-cons max_digit (61, refl),
    (ground (arith, digit_at-digit_index c d e, min_letter), order),
  )

  decrement_digit_under : 0 < d → decrement_digits s ≡ ok (t, true) → Decrements (c ∷ s)
  unfolding decrement_digits decrement_digit
  decrement_digit_under under run = (
    digit_at (d - 1) ∷ t,
    false,
    rw (run, e) (ground arith),
    Moved-cons (digit_at (d - 1)) (IsDigit-digit_at (d - 1) (omega (arith, digit_index-lt c d e))),
    ground (
      arith,
      digit_at-digit_index c d e,
      digit_at-lt (d - 1) d (omega arith) (digit_index-lt c d e),
    ),
  )

Increments-cons : (c : ℕ) (s : Str) → IsDigit c → Increments s → Increments (c ∷ s)
Increments-cons c s (d, e) (t, false, run, moved, order) =
    increment_digit_still c d e s t moved run order
Increments-cons c s (d, e) (t, true, run, moved, order) = elim (ℕ_discrete (d + 1) 62) [
  | yes over ↦ increment_digit_over c d e s t moved over run order
  | no under ↦ increment_digit_under c d e s t moved (omega (arith, digit_index-lt c d e)) run
]

pub increment_digits_lem : (s : Str) → IsDigits s → Increments s
unfolding increment_digits
increment_digits_lem [] ds = ([], true, refl, record { same_length = refl; digits = tt }, tt)
increment_digits_lem (c ∷ s) ds = Increments-cons c s ds.0 (increment_digits_lem s ds.1)

Decrements-cons : (c : ℕ) (s : Str) → IsDigit c → Decrements s → Decrements (c ∷ s)
Decrements-cons c s (d, e) (t, false, run, moved, order) =
    decrement_digit_still c d e s t moved run order
Decrements-cons c s (d, e) (t, true, run, moved, order) = elim (ℕ_discrete d 0) [
  | yes over ↦ decrement_digit_over c d e s t moved over run order
  | no under ↦ decrement_digit_under c d e s t moved (omega arith) run
]

pub decrement_digits_lem : (s : Str) → IsDigits s → Decrements s
unfolding decrement_digits
decrement_digits_lem [] ds = ([], true, refl, record { same_length = refl; digits = tt }, tt)
decrement_digits_lem (c ∷ s) ds = Decrements-cons c s ds.0 (decrement_digits_lem s ds.1)
