-- ===== src/Fractional/Integer/Step.antt =====
-- increment_integer and decrement_integer of crates/scene-core/src/fractional.rs.
use shape_ai.Common.{
  ℕ, ◌+◌, ◌-◌, [], ◌∷◌, ◌++◌, Bool, true, false, Option, none, some, ltb, nat_eq, if◌then◌else◌,
}
use shape_ai.Common.Str.{Str}
use shape_ai.Common.Result.{Result, ok, err, ◌>>=◌, ◌>>◌}
use shape_ai.Fractional.Digits.{KeyError, panicked, digit_at, digit_index, zero_digit, max_digit}
use shape_ai.Fractional.{validate_integer}

-- One letter of the loop from the right: `carry` says that the letters behind it were all 'z'.
unfoldable pub increment_digit : ℕ → Str × Bool → Result KeyError (Str × Bool)
increment_digit c (done, false) = ok (c ∷ done, false)
increment_digit c (done, true) = do
  i ← digit_index c
  if nat_eq (i + 1) 62 then ok (zero_digit ∷ done, true) else ok (digit_at (i + 1) ∷ done, false)

unfoldable pub increment_digits : Str → Result KeyError (Str × Bool)
increment_digits [] = ok ([], true)
increment_digits (c ∷ s) = increment_digits s >>= increment_digit c

unfoldable pub decrement_digit : ℕ → Str × Bool → Result KeyError (Str × Bool)
decrement_digit c (done, false) = ok (c ∷ done, false)
decrement_digit c (done, true) = do
  i ← digit_index c
  if nat_eq i 0 then ok (max_digit ∷ done, true) else ok (digit_at (i - 1) ∷ done, false)

unfoldable pub decrement_digits : Str → Result KeyError (Str × Bool)
decrement_digits [] = ok ([], true)
decrement_digits (c ∷ s) = decrement_digits s >>= decrement_digit c

-- `Vec::pop`.
abbrev pub pop : Str → Str
pop [] = []
pop (c ∷ []) = []
pop (c ∷ d ∷ s) = c ∷ pop (d ∷ s)

-- What becomes of the head.
unfoldable pub increment_head : ℕ → Str × Bool → Option Str
increment_head head (digs, false) = some (head ∷ digs)
increment_head head (digs, true) =
    if nat_eq head b'Z'
    then some (b'a' ∷ zero_digit ∷ [])
    else if nat_eq head max_digit
    then none
    else some ((head + 1) ∷ (if ltb b'a' (head + 1) then digs ++ zero_digit ∷ [] else pop digs))

unfoldable pub decrement_head : ℕ → Str × Bool → Option Str
decrement_head head (digs, false) = some (head ∷ digs)
decrement_head head (digs, true) =
    if nat_eq head b'a'
    then some (b'Z' ∷ max_digit ∷ [])
    else if nat_eq head b'A'
    then none
    else some ((head - 1) ∷ (if ltb (head - 1) b'Z' then digs ++ max_digit ∷ [] else pop digs))

unfoldable pub increment_integer : Str → Result KeyError (Option Str)
increment_integer [] = validate_integer [] >> err panicked
increment_integer (head ∷ s) = do
  validate_integer (head ∷ s)
  digs ← increment_digits s
  ok (increment_head head digs)

unfoldable pub decrement_integer : Str → Result KeyError (Option Str)
decrement_integer [] = validate_integer [] >> err panicked
decrement_integer (head ∷ s) = do
  validate_integer (head ∷ s)
  digs ← decrement_digits s
  ok (decrement_head head digs)
