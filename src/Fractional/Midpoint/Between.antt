-- ===== src/Fractional/Midpoint/Between.antt =====
-- Digit strings and the strings between two keys, for midpoint of crates/scene-core/src/fractional.rs.
use shape_ai.Common.{
  ℕ, suc, ◌+◌, ◌/◌, ◌≤◌, ◌<◌, ◌≡◌, ◌≢◌, refl, [], ◌∷◌, Bool, true, false, Option, none, some, arith,
  nat_eq, All,
}
use shape_ai.Common.Str.{Str, str_lt}
use shape_ai.Common.Result.{Result, ok}
use shape_ai.Fractional.Digits.{
  KeyError, digit_at, digit_index, digit_index-digit_at, digit_index-lt, digit_at-digit_index,
  digit_at-lt, zero_digit,
}
use shape_ai.Fractional.{
  ends_in_zero, mid_digit, midpoint_loop, first_digit, upper_digit, upper_head,
}

abbrev pub IsDigit : ℕ → Type 0
IsDigit c = (d : ℕ) × (digit_index c ≡ ok d)

abbrev pub IsDigits : Str → Type 0
IsDigits s = All IsDigit s

abbrev pub lt_upper : Str → Option Str → Bool
lt_upper m none = true
lt_upper m (some b) = str_lt m b

-- A fraction between `a` and `b`, fit to be a bound itself.
pub record IsBetween (a : Str) (b : Option Str) (m : Str) : Type 0 where
  pub above : str_lt a m ≡ true
  pub below : lt_upper m b ≡ true
  pub digits : IsDigits m
  pub no_zero : ends_in_zero m ≡ false

abbrev pub Finds : ℕ → Str → Option Str → Type 0
Finds fuel a b = (m : Str) × (midpoint_loop fuel a b ≡ ok m) × IsBetween a b m

pub IsDigit-digit_at : (d : ℕ) → d < 62 → IsDigit (digit_at d)
IsDigit-digit_at d h = (d, digit_index-digit_at d h)

pub digit_at_pos : (d : ℕ) → 0 < d → d < 62 → nat_eq (digit_at d) zero_digit ≡ false
unfolding digit_at
digit_at_pos d h k = ground (arith, digit_at-lt 0 d h k)

pub add_three : (n : ℕ) → n + 3 ≡ suc (suc (suc n))
add_three n = omega arith

pub zero_letter : digit_at 0 ≡ zero_digit
unfolding digit_at
zero_letter = refl

pub ends_in_zero-rest : (c : ℕ) (s : Str) → ends_in_zero (c ∷ s) ≡ false → ends_in_zero s ≡ false
ends_in_zero-rest c [] h = refl
ends_in_zero-rest c (d ∷ s) h = h

pub ends_in_zero-cons :
    (c : ℕ) (s : Str) → s ≢ [] → ends_in_zero s ≡ false → ends_in_zero (c ∷ s) ≡ false
ends_in_zero-cons c [] n h = absurd (n refl)
ends_in_zero-cons c (d ∷ s) n h = h

pub nonempty_of_lt : (a m : Str) → str_lt a m ≡ true → m ≢ []
nonempty_of_lt a [] h = cc
nonempty_of_lt a (c ∷ m) h = λ e. cc

-- The branches of `mid_digit`.
module _ (a : Str) (b : Option Str) (da db : ℕ) (r : Result KeyError Str)
    (first : first_digit a 0 ≡ ok da) (last : upper_digit b ≡ ok db) where
  pub mid_digit-wide : da + 1 < db → mid_digit a b r ≡ ok (digit_at ((da + db + 1) / 2) ∷ [])
  unfolding mid_digit
  mid_digit-wide h = rw (first, last) (ground arith)

  pub mid_digit-head : (h : Str) → da + 1 ≡ db → upper_head b ≡ some h → mid_digit a b r ≡ ok h
  unfolding mid_digit
  mid_digit-head h e k = rw (first, last, k) (ground arith)

  pub mid_digit-deeper :
      (m : Str)
      → da + 1 ≡ db
      → upper_head b ≡ none
      → r ≡ ok m
      → mid_digit a b r ≡ ok (digit_at da ∷ m)
  unfolding mid_digit
  mid_digit-deeper m e k run = rw (first, last, k, run) (ground arith)

pub above_digit :
    (a m : Str) (da e : ℕ)
    → first_digit a 0 ≡ ok da
    → da < e
    → e < 62
    → str_lt a (digit_at e ∷ m) ≡ true
above_digit [] m da e h lt k = refl
above_digit (c ∷ a) m da e h lt k =
    ground (arith, digit_at-digit_index c da h, digit_at-lt da e lt k)

pub below_digit :
    (b : Option Str) (m : Str) (db e : ℕ)
    → upper_digit b ≡ ok db
    → e < db
    → db ≤ 62
    → lt_upper (digit_at e ∷ m) b ≡ true
below_digit none m db e h lt k = refl
below_digit (some []) m db e h lt k = cc
below_digit (some (c ∷ b)) m db e h lt k =
    ground (arith, digit_at-digit_index c db h, digit_index-lt c db h, digit_at-lt e db lt)

-- Half way between two digits that are not neighbours.
pub IsBetween-wide :
    (a : Str) (b : Option Str) (da db : ℕ)
    → first_digit a 0 ≡ ok da
    → upper_digit b ≡ ok db
    → da + 1 < db
    → db ≤ 62
    → IsBetween a b (digit_at ((da + db + 1) / 2) ∷ [])
IsBetween-wide a b da db first last h k = record {
  above = above_digit a [] da ((da + db + 1) / 2) first (omega arith) (omega arith);
  below = below_digit b [] db ((da + db + 1) / 2) last (omega arith) k;
  digits = (IsDigit-digit_at ((da + db + 1) / 2) (omega arith), tt);
  no_zero = digit_at_pos ((da + db + 1) / 2) (omega arith) (omega arith);
}
