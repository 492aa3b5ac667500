-- ===== src/Fractional/Examples.antt =====
-- The order keys of crates/scene-core/src/fractional.rs on concrete inputs.
use shape_ai.Common.{◌≡◌, refl, Option, none, some, []}
use shape_ai.Common.Str.{Str, bytes}
use shape_ai.Common.Result.{ok}
use shape_ai.Fractional.Digits.{digit_index, digit_at}
use shape_ai.Fractional.{
  midpoint, midpoint_loop, common_prefix, check_bounds, mid_digit, get_integer_part,
  get_integer_length, validate_order_key, validate_integer, check_digits,
}
use shape_ai.Fractional.Midpoint.{midpoint-IsBetween, MidpointOf}
use shape_ai.Fractional.Integer.{
  IsInteger, increment_integer, decrement_integer, increment_digits, increment_digit,
  increment_head, decrement_digits, decrement_digit, decrement_head, increment_integer-NextOf,
  decrement_integer-PreviousOf, NextOf, PreviousOf,
}
use shape_ai.Fractional.Key.{HasShape, IsKey, HasShape-validate}
use shape_ai.Fractional.Generate.{generate_key_between, key_before, key_after, key_amid}
use shape_ai.Fractional.Generate.Between.{
  Generates, IsBound, InOrder, generate-IsKeyBetween, generate-ok, generate-IsKey,
}
use shape_ai.Fractional.Several.{generate_n_keys_between}
use shape_ai.Fractional.Several.Laws.{Gives, generate_n-Rising}

midpoint_tests :
    (midpoint [] none ≡ ok (bytes "V"))
    × (midpoint (bytes "1") (some (bytes "2")) ≡ ok (bytes "1V"))
    × (midpoint (bytes "00z") (some (bytes "01")) ≡ ok (bytes "00zV"))
    × (midpoint (bytes "zzz") none ≡ ok (bytes "zzzV"))
unfolding midpoint midpoint_loop common_prefix check_bounds mid_digit digit_index digit_at
midpoint_tests = (refl, refl, refl, refl)

generate_tests :
    (generate_key_between none none ≡ ok (bytes "a0"))
    × (generate_key_between (some (bytes "a0")) none ≡ ok (bytes "a1"))
    × (generate_key_between none (some (bytes "a0")) ≡ ok (bytes "Zz"))
    × (generate_key_between (some (bytes "a0")) (some (bytes "a1")) ≡ ok (bytes "a0V"))
    × (generate_key_between (some (bytes "az")) none ≡ ok (bytes "b00"))
unfolding generate_key_between key_before key_after key_amid get_integer_part get_integer_length
    validate_order_key validate_integer check_digits midpoint midpoint_loop common_prefix
    check_bounds mid_digit digit_index digit_at increment_integer decrement_integer increment_digits
    increment_digit increment_head decrement_digits decrement_digit decrement_head
generate_tests = (refl, refl, refl, refl, refl)

midpoint-IsBetween_example : MidpointOf (bytes "1") (some (bytes "2"))
unfolding digit_index
midpoint-IsBetween_example =
    midpoint-IsBetween (bytes "1") (some (bytes "2")) ((1, refl), tt) refl
      (refl, ((2, refl), tt), refl)

az-IsInteger : IsInteger (bytes "az")
unfolding get_integer_length digit_index
az-IsInteger = (refl, ((61, refl), tt))

increment_integer-NextOf_example :
    (r : Option Str) × (increment_integer (bytes "az") ≡ ok r) × NextOf (bytes "az") r
increment_integer-NextOf_example = increment_integer-NextOf (bytes "az") az-IsInteger

decrement_integer-PreviousOf_example :
    (r : Option Str) × (decrement_integer (bytes "az") ≡ ok r) × PreviousOf (bytes "az") r
decrement_integer-PreviousOf_example = decrement_integer-PreviousOf (bytes "az") az-IsInteger

a0-IsKey : IsKey (bytes "a0")
unfolding validate_order_key get_integer_part get_integer_length check_digits digit_index
a0-IsKey = refl

a1-IsKey : IsKey (bytes "a1")
unfolding validate_order_key get_integer_part get_integer_length check_digits digit_index
a1-IsKey = refl

HasShape-validate_example : (i : Str) × (f : Str) × HasShape (bytes "a0") i f
HasShape-validate_example = HasShape-validate (bytes "a0") a0-IsKey

generate-IsKeyBetween_example :
    Generates
      (some (bytes "a0"))
      (some (bytes "a1"))
      (generate_key_between (some (bytes "a0")) (some (bytes "a1")))
generate-IsKeyBetween_example =
    generate-IsKeyBetween (some (bytes "a0")) (some (bytes "a1")) a0-IsKey a1-IsKey refl

generate-ok_example :
    IsBound (some (bytes "a0"))
    × IsBound (some (bytes "a1"))
    × InOrder (some (bytes "a0")) (some (bytes "a1"))
generate-ok_example =
    generate-ok (some (bytes "a0")) (some (bytes "a1")) (bytes "a0V") generate_tests.3

generate-IsKey_example : IsKey (bytes "a0V")
generate-IsKey_example =
    generate-IsKey (bytes "a0") (some (bytes "a1")) (bytes "a0V") generate_tests.3

generate_n-Rising_example :
    Gives 3
      (bytes "a0")
      (some (bytes "a1"))
      (generate_n_keys_between (some (bytes "a0")) (some (bytes "a1")) 3)
generate_n-Rising_example =
    generate_n-Rising (bytes "a0") (some (bytes "a1")) 3 a0-IsKey a1-IsKey refl
