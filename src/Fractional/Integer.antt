-- ===== src/Fractional/Integer.antt =====
-- `increment_integer` and `decrement_integer`: the integer part before and after one.
pub mod Step
pub mod Digits
use native.Mathlib.Decide.{ℕ_discrete}
use shape_ai.Common.{
  ℕ, suc, ◌+◌, ◌-◌, ◌≤◌, ◌<◌, ◌≡◌, ◌≢◌, refl, ap, [], ◌∷◌, ◌++◌, Bool, true, false, Option, none,
  some, arith, ltb, nat_eq, if◌then◌else◌, length, All, All-append, Bool-cases, inl, inr,
  length-append,
}
use shape_ai.Common.Str.{Str, differs_below}
use shape_ai.Common.Result.{Result, ok, err, ◌>>=◌, ◌>>◌}
use shape_ai.Fractional.Digits.{
  KeyError, panicked, digit_at, digit_index, digit_index-lt, digit_at-digit_index, digit_at-lt,
  zero_digit, max_digit,
}
use shape_ai.Fractional.{get_integer_length, validate_integer}
use shape_ai.Fractional.Midpoint.{IsDigit, IsDigits, IsDigit-digit_at}
unfoldable pub use shape_ai.Fractional.Integer.Step.{
  increment_digit, increment_digits, decrement_digit, decrement_digits, increment_head,
  decrement_head, increment_integer, decrement_integer,
}
pub use shape_ai.Fractional.Integer.Digits.{IsInteger, AllAre}
use shape_ai.Fractional.Integer.Step.{pop}
use shape_ai.Fractional.Integer.Digits.{
  Rises, Falls, Moved, increment_digits_lem, decrement_digits_lem,
}

-- The last integer part: 'z' and only 'z'.
abbrev pub IsLast : Str → Type 0
IsLast [] = ⊥
IsLast (head ∷ s) = (head ≡ max_digit) × AllAre max_digit s

abbrev pub IsFirst : Str → Type 0
IsFirst [] = ⊥
IsFirst (head ∷ s) = (head ≡ b'A') × AllAre zero_digit s

-- `y` is an integer part above `x`, or there is none above.
abbrev pub NextOf : Str → Option Str → Type 0
NextOf x none = IsLast x
NextOf x (some y) = IsInteger y × (differs_below x y ≡ true)

abbrev pub PreviousOf : Str → Option Str → Type 0
PreviousOf x none = IsFirst x
PreviousOf x (some y) = IsInteger y × (differs_below y x ≡ true)

length-pop : (s : Str) → length (pop s) ≡ length s - 1
length-pop [] = omega arith
length-pop (c ∷ []) = omega arith
length-pop (c ∷ d ∷ s) = omega (arith, length-pop (d ∷ s))

IsDigits-pop : (s : Str) → IsDigits s → IsDigits (pop s)
IsDigits-pop [] ds = tt
IsDigits-pop (c ∷ []) ds = tt
IsDigits-pop (c ∷ d ∷ s) ds = (ds.0, IsDigits-pop (d ∷ s) ds.1)

validate_integer-ok : (x : Str) → IsInteger x → validate_integer x ≡ ok tt
unfolding validate_integer
validate_integer-ok [] h = absurd h
validate_integer-ok (head ∷ s) (e, ds) = rw e (ground arith)

IsInteger-cons :
    (head : ℕ) (t : Str) (n : ℕ)
    → get_integer_length head ≡ ok (suc n)
    → length t ≡ n
    → IsDigits t
    → IsInteger (head ∷ t)
IsInteger-cons head t n e k ds = (rw k e, ds)

module _ (head : ℕ) (n : ℕ) (e : get_integer_length head ≡ ok (suc n)) where
  head_longer : b'a' ≤ head → head ≢ b'z' → get_integer_length (head + 1) ≡ ok (suc (n + 1))
  unfolding get_integer_length
  head_longer h k = ground arith

  head_shorter : head < b'Z' → get_integer_length (head + 1) ≡ ok (suc (n - 1))
  unfolding get_integer_length
  head_shorter h = ground arith

  head_gap : head ≢ b'Z' → head < b'a' → head < b'Z'
  unfolding get_integer_length
  head_gap h k = ground arith

  head_longer_below : head ≤ b'Z' → head ≢ b'A' → get_integer_length (head - 1) ≡ ok (suc (n + 1))
  unfolding get_integer_length
  head_longer_below h k = ground arith

  head_shorter_below : b'a' < head → get_integer_length (head - 1) ≡ ok (suc (n - 1))
  unfolding get_integer_length
  head_shorter_below h = ground arith

  head_gap_below : head ≢ b'a' → b'Z' < head → b'a' < head
  unfolding get_integer_length
  head_gap_below h k = ground arith

  head_pos : 0 < head
  unfolding get_integer_length
  head_pos = ground arith

module _ (head : ℕ) (s t : Str) (e : get_integer_length head ≡ ok (suc (length s)))
    (moved : Moved s t) where
  IsInteger-longer :
      (h c : ℕ)
      → IsDigit c
      → get_integer_length h ≡ ok (suc (length s + 1))
      → IsInteger (h ∷ t ++ c ∷ [])
  IsInteger-longer h c d k =
      IsInteger-cons h (t ++ c ∷ []) (length s + 1) k
        (omega (arith, length-append t (c ∷ []), moved.same_length))
        (All-append IsDigit t (c ∷ []) moved.digits (d, tt))

  IsInteger-shorter :
      (h : ℕ) → get_integer_length h ≡ ok (suc (length s - 1)) → IsInteger (h ∷ pop t)
  IsInteger-shorter h k =
      IsInteger-cons h (pop t) (length s - 1) k (omega (arith, length-pop t, moved.same_length))
        (IsDigits-pop t moved.digits)

  increment_head_over : AllAre max_digit s → NextOf (head ∷ s) (increment_head head (t, true))
  unfolding increment_head
  increment_head_over full = elim (Bool-cases (nat_eq head b'Z')) [
    | inl z ↦
        rw z ((unfold get_integer_length digit_index in (refl, ((0, refl), tt))), ground arith)
    | inr nz ↦ elim (Bool-cases (nat_eq head max_digit)) [
      | inl last ↦ rw (nz, last) (ground arith, full)
      | inr more ↦ elim (Bool-cases (ltb b'a' (head + 1))) [
        | inl up ↦
            rw (nz, more, up)
              (
                IsInteger-longer (head + 1) zero_digit (unfold digit_index in (0, refl))
                    (head_longer head (length s) e (ground arith) (ground arith)),
                ground arith,
              )
        | inr low ↦
            rw (nz, more, low)
              (
                IsInteger-shorter (head + 1) (
                    head_shorter head (length s) e
                      (head_gap head (length s) e (ground arith) (ground arith))),
                ground arith,
              )
      ]
    ]
  ]

  decrement_head_over : AllAre zero_digit s → PreviousOf (head ∷ s) (decrement_head head (t, true))
  unfolding decrement_head
  decrement_head_over full = elim (Bool-cases (nat_eq head b'a')) [
    | inl z ↦
        rw z ((unfold get_integer_length digit_index in (refl, ((61, refl), tt))), ground arith)
    | inr nz ↦ elim (Bool-cases (nat_eq head b'A')) [
      | inl last ↦ rw (nz, last) (ground arith, full)
      | inr more ↦ elim (Bool-cases (ltb (head - 1) b'Z')) [
        | inl up ↦
            rw (nz, more, up)
              (
                IsInteger-longer (head - 1) max_digit (unfold digit_index in (61, refl))
                    (head_longer_below head (length s) e (ground arith) (ground arith)),
                ground (arith, head_pos head (length s) e),
              )
        | inr low ↦
            rw (nz, more, low)
              (
                IsInteger-shorter (head - 1) (
                    head_shorter_below head (length s) e (
                      head_gap_below head (length s) e (ground arith)
                        (ground (arith, head_pos head (length s) e)))),
                ground (arith, head_pos head (length s) e),
              )
      ]
    ]
  ]

increment_head_lem :
    (head : ℕ) (s t : Str) (carry : Bool)
    → get_integer_length head ≡ ok (suc (length s))
    → Moved s t
    → Rises s t carry
    → NextOf (head ∷ s) (increment_head head (t, carry))
unfolding increment_head
increment_head_lem head s t false e moved order =
    (IsInteger-cons head t (length s) e moved.same_length moved.digits, ground arith)
increment_head_lem head s t true e moved order = increment_head_over head s t e moved order

decrement_head_lem :
    (head : ℕ) (s t : Str) (carry : Bool)
    → get_integer_length head ≡ ok (suc (length s))
    → Moved s t
    → Falls s t carry
    → PreviousOf (head ∷ s) (decrement_head head (t, carry))
unfolding decrement_head
decrement_head_lem head s t false e moved order =
    (IsInteger-cons head t (length s) e moved.same_length moved.digits, ground arith)
decrement_head_lem head s t true e moved order = decrement_head_over head s t e moved order

-- On an integer part `increment_integer` does not fail. It returns an integer part that differs
-- from its argument and is larger at the first byte that differs, or nothing if all is 'z'.
pub increment_integer-NextOf :
    (x : Str) → IsInteger x → (r : Option Str) × (increment_integer x ≡ ok r) × NextOf x r
unfolding increment_integer
increment_integer-NextOf [] h = absurd h
increment_integer-NextOf (head ∷ s) h =
    let (t, carry, run, moved, order) = increment_digits_lem s h.1 in
    (
      increment_head head (t, carry),
      rw (validate_integer-ok (head ∷ s) h, run),
      increment_head_lem head s t carry h.0 moved order,
    )

-- The same of `decrement_integer`, downwards; there is nothing below 'A' with zeros.
pub decrement_integer-PreviousOf :
    (x : Str) → IsInteger x → (r : Option Str) × (decrement_integer x ≡ ok r) × PreviousOf x r
unfolding decrement_integer
decrement_integer-PreviousOf [] h = absurd h
decrement_integer-PreviousOf (head ∷ s) h =
    let (t, borrow, run, moved, order) = decrement_digits_lem s h.1 in
    (
      decrement_head head (t, borrow),
      rw (validate_integer-ok (head ∷ s) h, run),
      decrement_head_lem head s t borrow h.0 moved order,
    )
