-- ===== src/Common/Decimal.antt =====
-- Decimal formatting and parsing of integers, as `Display` and `str::parse::<i32>` have it.
use shape_ai.Common.{
  ℕ, zero, suc, ◌+◌, ◌-◌, ◌*◌, ◌/◌, ◌%◌, ◌≤◌, ◌<◌, ◌≡◌, ◌≢◌, refl, ap, ◌∙◌, [], ◌∷◌, ◌++◌, Bool,
  ◌&&◌, arith, ltb, leb, if◌then◌else◌, All, Bool-cases, inl, inr,
}
use shape_ai.Common.Int.{ℤ, pos, negsuc}
use shape_ai.Common.Str.{Str}

-- Digits in front of `acc`, the last one first.
unfoldable pub emit : ℕ → ℕ → Str → Str
emit zero n acc = acc
emit (suc fuel) n acc =
    let digit = (b'0' + n % 10) ∷ acc in
    let more = emit fuel (n / 10) digit in if ltb n 10 then digit else more

unfoldable pub decimal : ℕ → Str
decimal n = emit (suc n) n []

unfoldable pub display : ℤ → Str
display (pos n) = decimal n
display (negsuc n) = b'-' ∷ decimal (suc n)

abbrev pub is_decimal : ℕ → Bool
is_decimal c = leb b'0' c && leb c b'9'

abbrev pub IsDecimal : ℕ → Type 0
IsDecimal c = (b'0' ≤ c) × (c ≤ b'9')

-- The number that a run of digits stands for.
unfoldable pub value_onto : ℕ → Str → ℕ
value_onto a [] = a
value_onto a (c ∷ s) = value_onto (a * 10 + (c - b'0')) s

value-emit : (fuel n : ℕ) (acc : Str) → n < fuel → value_onto 0 (emit fuel n acc) ≡ value_onto n acc
unfolding emit value_onto
value-emit zero n acc h = absurd (omega arith)
value-emit (suc fuel) n acc h = elim (Bool-cases (ltb n 10)) [
  | inl short ↦ rw short (ap (λ k. value_onto k acc) (ground arith))
  | inr long ↦ rw long (
      value-emit fuel (n / 10) ((b'0' + n % 10) ∷ acc) (ground arith)
      ∙ ap (λ k. value_onto k acc) (omega arith))
]

-- Formatting loses nothing.
pub value-decimal : (n : ℕ) → value_onto 0 (decimal n) ≡ n
unfolding decimal value_onto
value-decimal n = value-emit (suc n) n [] (omega arith)

emit-digits : (fuel n : ℕ) (acc : Str) → All IsDecimal acc → All IsDecimal (emit fuel n acc)
unfolding emit
emit-digits zero n acc h = h
emit-digits (suc fuel) n acc h = elim (Bool-cases (ltb n 10)) [
  | inl short ↦ rw short ((omega arith, omega arith), h)
  | inr long ↦
      rw long (emit-digits fuel (n / 10) ((b'0' + n % 10) ∷ acc) ((omega arith, omega arith), h))
]

pub decimal-digits : (n : ℕ) → All IsDecimal (decimal n)
unfolding decimal
decimal-digits n = emit-digits (suc n) n [] tt

pub decimal-injective : (n m : ℕ) → decimal n ≡ decimal m → n ≡ m
decimal-injective n m e = cc (ap (value_onto 0) e, value-decimal n, value-decimal m)

list_tail : {x y : ℕ} {s t : Str} → x ∷ s ≡ y ∷ t → s ≡ t
list_tail e = cc e

-- A text with `sep` inside does not avoid it.
All-middle : (sep : ℕ) (b t : Str) → All (λ c. c ≢ sep) (b ++ sep ∷ t) → ⊥
All-middle sep [] t h = h.0 refl
All-middle sep (x ∷ b) t h = All-middle sep b t h.1

-- What stands around a separator that the right part does not contain is determined.
pub split_last :
    (sep : ℕ) (a b s t : Str)
    → All (λ c. c ≢ sep) s
    → All (λ c. c ≢ sep) t
    → a ++ sep ∷ s ≡ b ++ sep ∷ t
    → (a ≡ b) × (s ≡ t)
split_last sep [] [] s t hs ht e = (refl, cc e)
split_last sep [] (y ∷ b) s t hs ht e = absurd (All-middle sep b t (rw (list_tail e) at hs))
split_last sep (x ∷ a) [] s t hs ht e = absurd (All-middle sep a s (rw (← list_tail e) at ht))
split_last sep (x ∷ a) (y ∷ b) s t hs ht e =
    let (p, q) = split_last sep a b s t hs ht (list_tail e) in
    let same : x ≡ y = cc e in (cc (p, same), q)
