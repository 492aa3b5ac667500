-- ===== src/Fractional/Generate/Between.antt =====
-- The generated key lies strictly between the bounds, and no valid pair of bounds makes it fail.
pub mod Parts
pub mod Amid
use mathlib.Core.Path.{ap₂}
use native.Mathlib.Decide.{ℕ_discrete}
use shape_ai.Common.{
  ℕ, suc, ◌≤◌, ◌≡◌, ◌≢◌, refl, sym, ap, ◌∙◌, [], ◌∷◌, ◌++◌, append-nil, Bool, true, false, inl, inr,
  Option, none, some, arith, length, Bool-cases, not, ◌==◌, eq_iff, eq_of_ne,
}
use shape_ai.Common.Str.{
  Str, bytes, str_lt, str_key, str_lt-append, differs_below, differs_below-append,
  differs_below_of_length,
}
use shape_ai.Common.Result.{Result, ok, ◌>>◌, >>=-eq-ok, fail_if-eq-ok}
use shape_ai.Fractional.Digits.{KeyError, digit_index, zero_digit, max_digit}
use shape_ai.Fractional.{
  smallest_integer, get_integer_length, get_integer_part, ends_in_zero, check_digits,
  validate_order_key,
}
use shape_ai.Fractional.Midpoint.{IsDigits, IsBetween, lt_upper, midpoint-IsBetween}
use shape_ai.Fractional.Integer.{
  IsInteger, IsFirst, IsLast, NextOf, PreviousOf, AllAre, increment_integer-NextOf,
  decrement_integer-PreviousOf, increment_integer, decrement_integer,
}
use shape_ai.Fractional.Key.{
  IsKey, HasShape-validate, validate-HasShape, get_integer_part-append, drop-append, not_smallest,
}
use shape_ai.Fractional.Generate.{generate_key_between, key_before, key_after, key_amid}
pub use shape_ai.Fractional.Generate.Between.Parts.{Generates}
use shape_ai.Fractional.Generate.Between.Parts.{first_length, before, after}
use shape_ai.Fractional.Generate.Between.Amid.{amid_same, amid_apart}

zeros-least :
    (s f z : Str)
    → IsDigits s
    → AllAre zero_digit z
    → length z ≤ length s
    → str_lt (s ++ f) z ≡ false
unfolding digit_index
zeros-least s f [] ds h k = refl
zeros-least [] f (y ∷ z) ds h k = absurd (omega arith)
zeros-least (x ∷ s) f (y ∷ z) ((d, e), ds) h k = ground (arith, zeros-least s f z ds h.1)

head_least : (x n : ℕ) → get_integer_length x ≡ ok n → b'A' ≤ x
unfolding get_integer_length
head_least x n e = ground arith

not_lt-cons :
    (x y : ℕ) (t z : Str) → y ≤ x → (x ≡ y → str_lt t z ≡ false) → str_lt (x ∷ t) (y ∷ z) ≡ false
not_lt-cons x y t z h k = elim (ℕ_discrete x y) [
  | yes e ↦ ground (arith, k e)
  | no d ↦ ground arith
]

least_parts : (i f : Str) → IsInteger i → str_lt (i ++ f) smallest_integer ≡ false
least_parts [] f h = absurd h
least_parts (x ∷ s) f (e, ds) =
    let zeros = bytes "00000000000000000000000000" in
    not_lt-cons x b'A' (s ++ f) zeros (head_least x _ e) (λ q.
      zeros-least s f zeros ds (omega arith) (omega (arith, first_length (length s) (rw q at e))))

-- No key lies below the least integer part.
pub least_integer_least : (a : Str) → IsKey a → str_lt a smallest_integer ≡ false
least_integer_least a h =
    let (i, f, shape) = HasShape-validate a h in rw shape.parts (least_parts i f shape.integer)

abbrev pub IsBound : Option Str → Type 0
IsBound none = Unit
IsBound (some key) = IsKey key

abbrev pub InOrder : Option Str → Option Str → Type 0
InOrder (some a) (some b) = str_lt a b ≡ true
InOrder _ _ = Unit

before-key : (b : Str) → IsKey b → Generates none (some b) (key_before b)
before-key b h =
    let (i, f, shape) = HasShape-validate b h in
    rw shape.parts (
      before i f shape.integer shape.fraction shape.no_zero
        (λ e. not_smallest b h (shape.parts ∙ e)))

after-key : (a : Str) → IsKey a → Generates (some a) none (key_after a)
after-key a h =
    let (i, f, shape) = HasShape-validate a h in
    rw shape.parts (after i f shape.integer shape.fraction shape.no_zero)

amid-key :
    (a b : Str) → IsKey a → IsKey b → str_lt a b ≡ true → Generates (some a) (some b) (key_amid a b)
amid-key a b ha hb lt =
    let (i, f, sa) = HasShape-validate a ha in
    let (j, g, sb) = HasShape-validate b hb in
    let less = rw (sa.parts, sb.parts) at lt in
    rw (sa.parts, sb.parts)
      (elim (Bool-cases (i == j)) [
        | inl e ↦
            amid_same i f j g sa.integer sa.fraction sa.no_zero sb.integer sb.fraction sb.no_zero
              less ((eq_iff i j).0 e)
        | inr ne ↦
            amid_apart i f j g sa.integer sa.fraction sa.no_zero sb.integer sb.fraction sb.no_zero
              less (λ q. cc (ne, (eq_iff i j).1 q))
      ])

first-IsKey : IsKey (bytes "a0")
unfolding validate_order_key get_integer_part get_integer_length check_digits digit_index
first-IsKey = refl

-- With valid bounds in order, or with a bound or both left open, `generate_key_between` returns a
-- string strictly between them, and that string is a valid key unless it is the least integer part.
-- In particular it neither fails nor panics nor runs out of rounds.
pub generate-IsKeyBetween :
    (a b : Option Str)
    → IsBound a
    → IsBound b
    → InOrder a b
    → Generates a b (generate_key_between a b)
unfolding generate_key_between
generate-IsKeyBetween none none ha hb h =
    (bytes "a0", refl, record { above = refl; below = refl; key = λ _. first-IsKey })
generate-IsKeyBetween none (some b) ha hb h = rw hb (before-key b hb)
generate-IsKeyBetween (some a) none ha hb h = rw ha (after-key a ha)
generate-IsKeyBetween (some a) (some b) ha hb h = rw (ha, hb, h) (amid-key a b ha hb h)

bound_of :
    (key : Str) (m : Result KeyError Str) {k : Str}
    → (validate_order_key key >> m) ≡ ok k
    → IsKey key
bound_of key m h = let (u, e, _) = >>=-eq-ok (validate_order_key key) _ h in e

-- `generate_key_between` succeeds only on valid bounds in order.
pub generate-ok :
    (a b : Option Str) (k : Str)
    → generate_key_between a b ≡ ok k
    → IsBound a × IsBound b × InOrder a b
unfolding generate_key_between
generate-ok none none k h = (tt, tt, tt)
generate-ok none (some b) k h = (tt, bound_of b _ h, tt)
generate-ok (some a) none k h = (bound_of a _ h, tt, tt)
generate-ok (some a) (some b) k h =
    let (u, ha, k1) = >>=-eq-ok (validate_order_key a) _ h in
    let (v, hb, k2) = >>=-eq-ok (validate_order_key b) _ k1 in
    (ha, hb, ground (arith, (fail_if-eq-ok (not (str_lt a b)) _ _ k2).0))

-- Above a lower bound the generated string is a valid key, with no exception.
pub generate-IsKey :
    (a : Str) (b : Option Str) (k : Str) → generate_key_between (some a) b ≡ ok k → IsKey k
generate-IsKey a b k h =
    let (ha, hb, order) = generate-ok (some a) b k h in
    let (k', run, between) = generate-IsKeyBetween (some a) b ha hb order in
    let same : k' ≡ k = cc (run, h) in
    rw same at (between.key (λ e. cc (rw e at between.above, least_integer_least a ha)))
