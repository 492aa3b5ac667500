-- ===== src/Fractional/Midpoint.antt =====
-- `midpoint` returns a digit string strictly between its arguments.
pub mod Between
pub mod Digits
pub mod Prefix
use shape_ai.Common.{
  ℕ, zero, suc, ◌+◌, ◌/◌, ◌≤◌, ◌<◌, ◌≡◌, ◌≢◌, refl, inl, inr, [], ◌∷◌, ◌++◌, Bool, true, false,
  Option, none, some, arith, ltb, nat_eq, length, take, drop, All, All-append, Bool-cases, tests,
}
use shape_ai.Common.Str.{Str, str_lt}
use shape_ai.Common.Result.{Result, ok}
use shape_ai.Fractional.Digits.{
  KeyError, digit_at, digit_index, digit_index-digit_at, digit_index-lt, digit_at-digit_index,
  digit_at-lt, digit_index_mono, zero_digit,
}
use shape_ai.Fractional.{
  ends_in_zero, rest_of, common_prefix, check_bounds, mid_digit, midpoint_loop, midpoint,
  first_digit, upper_digit, upper_head,
}
pub use shape_ai.Fractional.Midpoint.Between.{
  IsDigit, IsDigits, lt_upper, IsBetween, IsDigit-digit_at,
}
use shape_ai.Fractional.Midpoint.Between.{add_three}
use shape_ai.Fractional.Midpoint.Digits.{Finds-none}
use shape_ai.Fractional.Midpoint.Prefix.{Finds-some}

-- What a caller of `midpoint` may rely on.
abbrev pub MidpointOf : Str → Option Str → Type 0
MidpointOf a b = (m : Str) × (midpoint a b ≡ ok m) × IsBetween a b m

abbrev pub IsBelow : Str → Option Str → Type 0
IsBelow a none = Unit
IsBelow a (some b) = (str_lt a b ≡ true) × IsDigits b × (ends_in_zero b ≡ false)

-- For digit strings `a` and `b` in order, neither of which ends in '0', `midpoint` returns a digit
-- string strictly between them that does not end in '0' either; so does it with no upper bound.
-- It never runs out of rounds, fails or panics.
pub midpoint-IsBetween :
    (a : Str) (b : Option Str) → IsDigits a → ends_in_zero a ≡ false → IsBelow a b → MidpointOf a b
unfolding midpoint
midpoint-IsBetween a none ds z h =
    rw add_three (Finds-none (suc (suc (suc (length a)))) a (omega arith) ds z)
midpoint-IsBetween a (some b) ds z (lt, dsb, zb) =
    rw add_three (Finds-some (suc (length a)) a b (omega arith) lt ds dsb z zb)
