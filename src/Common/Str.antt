-- ===== src/Common/Str.antt =====
-- Rust's `String` and `str` as their UTF-8 bytes, compared byte by byte, and decimal formatting.
use Prim.Native.Char.{code}
use Prim.Native.Nat.{compare, Ordering}
use Prim.Native.String.{String}
use mathlib.Core.Path.{ap₂}
use native.Mathlib.Decide.{ℕ_discrete}
use shape_ai.Common.{
  ℕ, List, [], ◌∷◌, ◌++◌, ◌≡◌, ◌≢◌, refl, Bool, true, false, arith, length, Eq, list_key, nat_key,
}

abbrev pub Str : Type 0
Str = List ℕ

-- The bytes of an ASCII literal.
abbrev pub bytes : String → Str
bytes String.[] = []
bytes (String.◌∷◌ c s) = code c ∷ bytes s

-- `str < str`: the first differing byte decides, and a proper prefix is smaller.
abbrev pub str_lt : Str → Str → Bool
str_lt _ [] = false
str_lt [] (y ∷ ys) = true
str_lt (x ∷ xs) (y ∷ ys) =
    let rest = str_lt xs ys in
    elim (compare x y) [ Ordering.lt ↦ true | Ordering.eq ↦ rest | Ordering.gt ↦ false ]

instance abbrev pub str_key : Eq Str
str_key = list_key

pub str_lt_irrefl : (s : Str) → str_lt s s ≡ false
str_lt_irrefl [] = refl
str_lt_irrefl (x ∷ s) = ground (arith, str_lt_irrefl s)

pub str_lt_trans : (a b c : Str) → str_lt a b ≡ true → str_lt b c ≡ true → str_lt a c ≡ true
str_lt_trans a b [] h k = cc
str_lt_trans a [] (z ∷ c) h k = ground arith
str_lt_trans [] (y ∷ b) (z ∷ c) h k = refl
str_lt_trans (x ∷ a) (y ∷ b) (z ∷ c) h k = ground (arith, str_lt_trans a b c)

-- Of two strings one is smaller, or they are equal.
pub str_trichotomy : (a b : Str) → str_lt a b ≡ false → str_lt b a ≡ false → a ≡ b
str_trichotomy [] [] h k = refl
str_trichotomy [] (y ∷ b) h k = cc
str_trichotomy (x ∷ a) [] h k = cc
str_trichotomy (x ∷ a) (y ∷ b) h k = ground (arith, str_trichotomy a b)

-- A byte of both differs, the first such byte being smaller in the first string; what follows
-- does not matter.
abbrev pub differs_below : Str → Str → Bool
differs_below _ [] = false
differs_below [] (y ∷ ys) = false
differs_below (x ∷ xs) (y ∷ ys) =
    let rest = differs_below xs ys in
    elim (compare x y) [ Ordering.lt ↦ true | Ordering.eq ↦ rest | Ordering.gt ↦ false ]

pub differs_below-append :
    (x y u v : Str) → differs_below x y ≡ true → str_lt (x ++ u) (y ++ v) ≡ true
differs_below-append x [] u v h = cc
differs_below-append [] (b ∷ y) u v h = cc
differs_below-append (a ∷ x) (b ∷ y) u v h = ground (arith, differs_below-append x y u v)

-- Strings of one length that are in order differ at a byte.
pub differs_below_of_length :
    (x y u v : Str)
    → length x ≡ length y
    → x ≢ y
    → str_lt (x ++ u) (y ++ v) ≡ true
    → differs_below x y ≡ true
differs_below_of_length [] [] u v e n h = absurd (n refl)
differs_below_of_length [] (b ∷ y) u v e n h = absurd (omega arith)
differs_below_of_length (a ∷ x) [] u v e n h = absurd (omega arith)
differs_below_of_length (a ∷ x) (b ∷ y) u v e n h = elim (ℕ_discrete a b) [
  | yes p ↦
      let m : x ≢ y = λ q. n (ap₂ (λ c s. c ∷ s) p q) in
      ground (arith, differs_below_of_length x y u v (omega arith) m)
  | no d ↦ ground arith
]

pub str_lt-append : (x u v : Str) → str_lt (x ++ u) (x ++ v) ≡ str_lt u v
str_lt-append [] u v = refl
str_lt-append (a ∷ x) u v = ground (arith, str_lt-append x u v)
