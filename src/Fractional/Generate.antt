-- ===== src/Fractional/Generate.antt =====
-- `generate_key_between`: the code. Its proof is in the module below.
pub mod Between
use shape_ai.Common.{
  ◌≡◌, refl, Option, none, some, Bool, true, false, List, [], ◌∷◌, ◌++◌, length, drop, not, ◌==◌,
  if◌then◌else◌,
}
use shape_ai.Common.Str.{Str, bytes, str_lt, str_key}
use shape_ai.Common.Result.{Result, ok, err, ◌>>=◌, ◌>>◌, fail_if, ok_or}
use shape_ai.Fractional.Digits.{
  KeyError, not_less, cannot_decrement, cannot_increment, digit_index, digit_at,
}
use shape_ai.Fractional.{
  smallest_integer, get_integer_part, get_integer_length, validate_order_key, validate_integer,
  check_digits, midpoint, midpoint_loop, common_prefix, check_bounds, mid_digit,
}
use shape_ai.Fractional.Integer.{
  increment_integer, decrement_integer, increment_digits, increment_digit, increment_head,
  decrement_digits, decrement_digit, decrement_head,
}

abbrev pub validate_bound : Option Str → Result KeyError (Unit {0})
validate_bound none = ok tt
validate_bound (some key) = validate_order_key key

abbrev check_order : Option Str → Option Str → Result KeyError (Unit {0})
check_order (some a) (some b) = fail_if (not (str_lt a b)) (not_less a b)
check_order _ _ = ok tt

-- The integer part with a fraction between the bounds behind it.
abbrev with_fraction : Str → Str → Option Str → Result KeyError Str
with_fraction i a b = do m ← midpoint a b; ok (i ++ m)

-- A key before the first.
unfoldable pub key_before : Str → Result KeyError Str
key_before b = do
  ib ← get_integer_part b
  let fb = drop (length ib) b
  let lower = do res ← decrement_integer ib; ok_or res cannot_decrement
  if ib == smallest_integer
      then with_fraction ib [] (some fb)
      else if str_lt ib b
      then ok ib
      else lower

-- A key behind the last.
unfoldable pub key_after : Str → Result KeyError Str
key_after a = do
  ia ← get_integer_part a
  let fa = drop (length ia) a
  res ← increment_integer ia
  elim res [ none ↦ with_fraction ia fa none | some i ↦ ok i ]

unfoldable pub key_amid : Str → Str → Result KeyError Str
key_amid a b = do
  ia ← get_integer_part a
  let fa = drop (length ia) a
  ib ← get_integer_part b
  let fb = drop (length ib) b
  let apart = do
    res ← increment_integer ia
    i ← ok_or res cannot_increment
    if str_lt i b then ok i else with_fraction ia fa none
  if ia == ib then with_fraction ia fa (some fb) else apart

abbrev key_at : Option Str → Option Str → Result KeyError Str
key_at none none = ok (bytes "a0")
key_at none (some b) = key_before b
key_at (some a) none = key_after a
key_at (some a) (some b) = key_amid a b

unfoldable pub generate_key_between : Option Str → Option Str → Result KeyError Str
generate_key_between a b = do validate_bound a; validate_bound b; check_order a b; key_at a b
