-- ===== src/Fractional/Digits.antt =====
-- The digits of an order key, and the errors.

use shape_ai.Common.{
  ℕ, zero, suc, ◌+◌, ◌-◌, ◌<◌, ◌≡◌, refl, Bool, true, ◌&&◌, none, some, arith, ltb, leb, nat_eq,
  nat_eq_iff, if◌then◌else◌, get_elem?,
}
use shape_ai.Common.Str.{Str, bytes}
use shape_ai.Common.Result.{Result, ok, err}

-- One constructor for each message; `panicked` stands for a panic of the code and `out_of_fuel`
-- for a loop that the model cut off.
pub data KeyError : Type 0 where
  invalid_digit invalid_head : ℕ → KeyError
  empty_key empty_integer : KeyError
  invalid_key invalid_integer : Str → KeyError
  not_less : Str → Str → KeyError
  trailing_zero cannot_decrement cannot_increment panicked out_of_fuel : KeyError

abbrev pub base_62_digits : Str
base_62_digits = bytes "0123456789ABCDEFGHIJKLMNOPQRSTUVWXYZabcdefghijklmnopqrstuvwxyz"

abbrev pub zero_digit : ℕ
zero_digit = b'0'

abbrev pub max_digit : ℕ
max_digit = b'z'

-- `BASE_62_DIGITS[d]`; the code never reads past the end, see `digit_index-digit_at`.
unfoldable pub digit_at : ℕ → ℕ
digit_at d = elim (get_elem? base_62_digits d) [ none ↦ 0 | some c ↦ c ]

unfoldable pub digit_index : ℕ → Result KeyError ℕ
digit_index c =
    if leb b'0' c && leb c b'9'
    then ok (c - b'0')
    else if leb b'A' c && leb c b'Z'
    then ok (c - b'A' + 10)
    else if leb b'a' c && leb c b'z'
    then ok (c - b'a' + 36)
    else err (invalid_digit c)

-- The same letters by arithmetic.
abbrev pub letter : ℕ → ℕ
letter d = if ltb d 10 then d + 48 else if ltb d 36 then d + 55 else d + 61

-- The table and the arithmetic agree at the digits below a bound.
agree_below : ℕ → Bool
agree_below zero = true
agree_below (suc d) = nat_eq (letter d) (digit_at d) && agree_below d

agree_below-eq : (bound d : ℕ) → d < bound → agree_below bound ≡ true → digit_at d ≡ letter d
unfolding agree_below
agree_below-eq zero d lt table = absurd (omega arith)
agree_below-eq (suc bound) d lt table =
    ground (arith, agree_below-eq bound d, nat_eq_iff (letter bound) (digit_at bound))

agree_on_digits : agree_below 62 ≡ true
unfolding agree_below digit_at
agree_on_digits = refl

pub digit_at-eq-letter : (d : ℕ) → d < 62 → digit_at d ≡ letter d
digit_at-eq-letter d lt = agree_below-eq 62 d lt agree_on_digits

-- A digit is read back from its letter.
pub digit_index-digit_at : (d : ℕ) → d < 62 → digit_index (digit_at d) ≡ ok d
unfolding digit_index
digit_index-digit_at d h = ground (arith, digit_at-eq-letter d h)

pub digit_index-lt : (c d : ℕ) → digit_index c ≡ ok d → d < 62
unfolding digit_index
digit_index-lt c d h = ground arith

pub digit_at-digit_index : (c d : ℕ) → digit_index c ≡ ok d → digit_at d ≡ c
unfolding digit_index
digit_at-digit_index c d h = ground (arith, digit_at-eq-letter d (digit_index-lt c d h))

-- The letters are in the order of their digits.
pub digit_at-lt : (d e : ℕ) → d < e → e < 62 → digit_at d < digit_at e
digit_at-lt d e h k = ground (arith, digit_at-eq-letter d, digit_at-eq-letter e k)

pub digit_index_mono :
    (c c' d d' : ℕ) → digit_index c ≡ ok d → digit_index c' ≡ ok d' → c < c' → d < d'
unfolding digit_index
digit_index_mono c c' d d' h k lt = ground arith
