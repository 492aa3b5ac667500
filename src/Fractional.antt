-- ===== src/Fractional.antt =====
-- crates/scene-core/src/fractional.rs: order keys of the z-order, over base 62.
pub mod Digits
pub mod Midpoint
pub mod Integer
pub mod Key
pub mod Generate
pub mod Several
mod Examples
use shape_ai.Common.{
  ℕ, zero, suc, ◌+◌, ◌-◌, ◌/◌, ◌<◌, List, [], ◌∷◌, ◌++◌, Bool, true, false, ◌&&◌, ◌||◌, not, Option,
  none, some, refl, ◌≡◌, ltb, leb, nat_eq, if◌then◌else◌, length, take, drop, ◌==◌, is_empty,
}
use shape_ai.Common.Str.{Str, bytes, str_lt, str_key}
use shape_ai.Common.Result.{Result, ok, err, ◌>>=◌, ◌>>◌, fail_if}
use Digits.{
  KeyError, invalid_digit, invalid_head, empty_key, invalid_key, empty_integer, invalid_integer,
  not_less, trailing_zero, cannot_decrement, cannot_increment, panicked, out_of_fuel, digit_at,
  digit_index, zero_digit, max_digit,
}

-- "A" and twenty-six zeros: the least integer part, which is no key.
abbrev pub smallest_integer : Str
smallest_integer = bytes "A00000000000000000000000000"

unfoldable pub get_integer_length : ℕ → Result KeyError ℕ
get_integer_length head =
    if leb b'a' head && leb head b'z'
    then ok (head - b'a' + 2)
    else if leb b'A' head && leb head b'Z'
    then ok (b'Z' - head + 2)
    else err (invalid_head head)

-- A slice of a `str` may not begin or end inside a character: the byte there would be 10xxxxxx.
abbrev pub at_char_boundary : Str → Bool
at_char_boundary [] = true
at_char_boundary (c ∷ s) = not (leb 128 c && ltb c 192)

-- The integer part, `key[..len]`; a cut inside a character panics.
unfoldable pub get_integer_part : Str → Result KeyError Str
get_integer_part [] = err empty_key
get_integer_part (head ∷ s) = do
  len ← get_integer_length head
  fail_if (ltb (length (head ∷ s)) len) (invalid_key (head ∷ s))
  fail_if (not (at_char_boundary (drop len (head ∷ s)))) panicked
  ok (take len (head ∷ s))

unfoldable pub validate_integer : Str → Result KeyError (Unit {0})
validate_integer [] = err empty_integer
validate_integer (head ∷ s) = do
  len ← get_integer_length head
  fail_if (not (nat_eq (length (head ∷ s)) len)) (invalid_integer (head ∷ s))

-- The loops that read each byte as a digit.
unfoldable pub check_digits : Str → Result KeyError (Unit {0})
check_digits [] = ok tt
check_digits (c ∷ s) = let rest = check_digits s in do d ← digit_index c; rest

abbrev pub ends_in_zero : Str → Bool
ends_in_zero [] = false
ends_in_zero (c ∷ []) = nat_eq c zero_digit
ends_in_zero (c ∷ d ∷ s) = ends_in_zero (d ∷ s)

-- `i.as_bytes()[1..]`.
abbrev pub rest_of : Str → Str
rest_of [] = []
rest_of (c ∷ s) = s

unfoldable pub validate_order_key : Str → Result KeyError (Unit {0})
validate_order_key key = do
  fail_if (key == smallest_integer) (invalid_key key)
  i ← get_integer_part key
  let f = drop (length i) key
  check_digits (rest_of i)
  check_digits f
  fail_if (ends_in_zero f) (invalid_key key)

-- The `while` loop: how many letters of `b` repeat `a`, which is padded with zeros.
unfoldable pub common_prefix : Str → Str → ℕ
common_prefix a [] = zero
common_prefix [] (y ∷ b) =
    let more = common_prefix [] b in if nat_eq zero_digit y then suc more else 0
common_prefix (x ∷ a) (y ∷ b) = let more = common_prefix a b in if nat_eq x y then suc more else 0

abbrev pub upper_below : Str → Option Str → Bool
upper_below a none = false
upper_below a (some b) = not (str_lt a b)

abbrev pub upper_ends_in_zero : Option Str → Bool
upper_ends_in_zero none = false
upper_ends_in_zero (some b) = ends_in_zero b

-- The digit of the first letter, and the number that stands in for it where there is none.
abbrev pub first_digit : Str → ℕ → Result KeyError ℕ
first_digit [] d = ok d
first_digit (c ∷ s) d = digit_index c

abbrev pub upper_digit : Option Str → Result KeyError ℕ
upper_digit none = ok 62
upper_digit (some []) = err panicked
upper_digit (some (c ∷ s)) = digit_index c

abbrev pub upper_head : Option Str → Option Str
upper_head none = none
upper_head (some []) = none
upper_head (some (c ∷ [])) = none
upper_head (some (c ∷ d ∷ s)) = some (c ∷ [])

abbrev pub prefix_of : Str → Option Str → ℕ
prefix_of a none = 0
prefix_of a (some b) = common_prefix a b

abbrev pub take_upper : ℕ → Option Str → Str
take_upper n none = []
take_upper n (some b) = take n b

abbrev pub drop_upper : ℕ → Option Str → Option Str
drop_upper n none = none
drop_upper n (some b) = some (drop n b)

abbrev pub or_empty : Option Str → Str
or_empty none = []
or_empty (some s) = s

-- The two tests that come first.
unfoldable pub check_bounds : Str → Option Str → Result KeyError (Unit {0})
check_bounds a b = do
  fail_if (upper_below a b) (not_less a (or_empty b))
  fail_if (ends_in_zero a || upper_ends_in_zero b) trailing_zero

-- The part after the common prefix: the middle digit, or the first letter of `b`, or else one
-- letter deeper, which `deeper` computes. A difference below zero is a panic.
unfoldable pub mid_digit : Str → Option Str → Result KeyError Str → Result KeyError Str
mid_digit a b deeper = do
  digit_a ← first_digit a 0
  digit_b ← upper_digit b
  fail_if (ltb digit_b digit_a) panicked
  let below = do inner ← deeper; ok (digit_at digit_a ∷ inner)
  let half = digit_at ((digit_a + digit_b + 1) / 2) ∷ []
  if ltb 1 (digit_b - digit_a)
      then ok half
      else elim (upper_head b) [ some h ↦ ok h | none ↦ below ]

-- Each recursive call is bound and waits until its branch is taken.
unfoldable pub midpoint_loop : ℕ → Str → Option Str → Result KeyError Str
midpoint_loop zero a b = err out_of_fuel
midpoint_loop (suc fuel) a b =
    let n = prefix_of a b in
    let stripped = midpoint_loop fuel (drop n a) (drop_upper n b) in
    let deeper = midpoint_loop fuel (rest_of a) none in
    let prefixed = stripped >>= (λ inner. ok (take_upper n b ++ inner)) in
    let plain = mid_digit a b deeper in check_bounds a b >> (if ltb 0 n then prefixed else plain)

-- Every round but the first two shortens `a`.
unfoldable pub midpoint : Str → Option Str → Result KeyError Str
midpoint a b = midpoint_loop (length a + 3) a b
