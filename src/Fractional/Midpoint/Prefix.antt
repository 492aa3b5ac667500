-- ===== src/Fractional/Midpoint/Prefix.antt =====
-- midpoint of crates/scene-core/src/fractional.rs behind a common prefix.
use shape_ai.Common.{
  ℕ, zero, suc, ◌≤◌, ◌<◌, ◌≡◌, ◌≢◌, refl, inl, inr, [], ◌∷◌, ◌++◌, true, false, some, arith, ltb,
  nat_eq, length, take, drop, All, All-append, Bool-cases,
}
use shape_ai.Common.Str.{Str, str_lt}
use shape_ai.Fractional.Digits.{zero_digit}
use shape_ai.Fractional.{ends_in_zero, common_prefix, check_bounds, midpoint_loop}
use shape_ai.Fractional.Midpoint.Between.{
  IsDigit, IsDigits, IsBetween, Finds, ends_in_zero-rest, ends_in_zero-cons, nonempty_of_lt,
}
use shape_ai.Fractional.Midpoint.Digits.{Finds-apart}

module _ (P : ℕ → Type 0) where
  All-drop : (n : ℕ) (s : Str) → All P s → All P (drop n s)
  All-drop zero s h = h
  All-drop (suc n) [] h = tt
  All-drop (suc n) (c ∷ s) h = All-drop n s h.1

  All-take : (n : ℕ) (s : Str) → All P s → All P (take n s)
  All-take zero s h = tt
  All-take (suc n) [] h = tt
  All-take (suc n) (c ∷ s) h = (h.0, All-take n s h.1)

ends_in_zero-drop : (n : ℕ) (s : Str) → ends_in_zero s ≡ false → ends_in_zero (drop n s) ≡ false
ends_in_zero-drop zero s h = h
ends_in_zero-drop (suc n) [] h = refl
ends_in_zero-drop (suc n) (c ∷ s) h = ends_in_zero-drop n s (ends_in_zero-rest c s h)

ends_in_zero-append : (s m : Str) → m ≢ [] → ends_in_zero m ≡ false → ends_in_zero (s ++ m) ≡ false
ends_in_zero-append [] m n h = h
ends_in_zero-append (c ∷ []) m n h = ends_in_zero-cons c m n h
ends_in_zero-append (c ∷ d ∷ s) m n h = ends_in_zero-append (d ∷ s) m n h

length-drop-le : (n : ℕ) (s : Str) → length (drop n s) ≤ length s
length-drop-le zero s = omega arith
length-drop-le (suc n) [] = omega arith
length-drop-le (suc n) (c ∷ s) = omega (arith, length-drop-le n s)

drop-nil : (n : ℕ) → drop {A = ℕ} n [] ≡ []
drop-nil zero = refl
drop-nil (suc n) = refl

-- Behind the common prefix the bounds are still in order, and share no more letters.
prefix_less :
    (a b : Str)
    → str_lt a b ≡ true
    → ends_in_zero b ≡ false
    → str_lt (drop (common_prefix a b) a) (drop (common_prefix a b) b) ≡ true
unfolding common_prefix
prefix_less a [] h z = cc
prefix_less [] (y ∷ []) h z = ground arith
prefix_less [] (y ∷ d ∷ b) h z = ground (arith, prefix_less [] (d ∷ b))
prefix_less (x ∷ a) (y ∷ b) h z = ground (arith, prefix_less a b, ends_in_zero-rest y b z)

prefix_apart :
    (a b : Str) → common_prefix (drop (common_prefix a b) a) (drop (common_prefix a b) b) ≡ 0
unfolding common_prefix
prefix_apart a [] = refl
prefix_apart [] (y ∷ b) = elim (Bool-cases (nat_eq zero_digit y)) [
  | inl same ↦ rw same (rw drop-nil at (prefix_apart [] b))
  | inr other ↦ rw other (rw other)
]
prefix_apart (x ∷ a) (y ∷ b) = ground (arith, prefix_apart a b)

-- A string between the rests is, behind the prefix, between the bounds.
prefix_between :
    (a b m : Str)
    → str_lt (drop (common_prefix a b) a) m ≡ true
    → str_lt m (drop (common_prefix a b) b) ≡ true
    → (str_lt a (take (common_prefix a b) b ++ m) ≡ true)
      × (str_lt (take (common_prefix a b) b ++ m) b ≡ true)
unfolding common_prefix
prefix_between a [] m h k = cc
prefix_between [] (y ∷ b) m h k = elim (Bool-cases (nat_eq zero_digit y)) [
  | inl same ↦
      let above = rw (← drop-nil (common_prefix [] b)) at (rw same at h) in
      let (lo, hi) = prefix_between [] b m above (rw same at k) in
      rw same (refl, ground (arith, hi))
  | inr other ↦ rw other (rw other at h, rw other at k)
]
prefix_between (x ∷ a) (y ∷ b) m h k = ground (arith, prefix_between a b m)

-- What the search found behind the prefix serves in front of it.
IsBetween-prefix :
    (a b m : Str)
    → IsDigits b
    → IsBetween (drop (common_prefix a b) a) (some (drop (common_prefix a b) b)) m
    → IsBetween a (some b) (take (common_prefix a b) b ++ m)
IsBetween-prefix a b m ds between = record {
  above = (prefix_between a b m between.above between.below).0;
  below = (prefix_between a b m between.above between.below).1;
  digits =
      All-append IsDigit (take (common_prefix a b) b) m (All-take IsDigit (common_prefix a b) b ds)
        between.digits;
  no_zero =
      ends_in_zero-append (take (common_prefix a b) b) m
        (nonempty_of_lt (drop (common_prefix a b) a) m between.above) between.no_zero;
}

-- A first round that strips the common prefix.
Finds-stripped :
    (fuel : ℕ) (a b : Str)
    → ltb 0 (common_prefix a b) ≡ true
    → str_lt a b ≡ true
    → IsDigits b
    → ends_in_zero a ≡ false
    → ends_in_zero b ≡ false
    → Finds fuel (drop (common_prefix a b) a) (some (drop (common_prefix a b) b))
    → Finds (suc fuel) a (some b)
unfolding midpoint_loop check_bounds
Finds-stripped fuel a b strips lt dsb za zb (m, run, between) = (
  take (common_prefix a b) b ++ m,
  rw (lt, za, zb, strips, run) refl,
  IsBetween-prefix a b m dsb between,
)

-- With two rounds more than letters the search ends, with a fraction between the bounds.
pub Finds-some :
    (fuel : ℕ) (a b : Str)
    → length a < fuel
    → str_lt a b ≡ true
    → IsDigits a
    → IsDigits b
    → ends_in_zero a ≡ false
    → ends_in_zero b ≡ false
    → Finds (suc (suc fuel)) a (some b)
Finds-some fuel a b room lt dsa dsb za zb = elim (Bool-cases (ltb 0 (common_prefix a b))) [
  | inl strips ↦
      let n = common_prefix a b in
      Finds-stripped (suc fuel) a b strips lt dsb za zb (
        Finds-apart fuel (drop n a) (drop n b) (omega (arith, length-drop-le n a)) (omega arith)
          (prefix_apart a b) (prefix_less a b lt zb) (All-drop IsDigit n a dsa)
          (All-drop IsDigit n b dsb) (ends_in_zero-drop n a za) (ends_in_zero-drop n b zb))
  | inr apart ↦
      Finds-apart (suc fuel) a b (omega arith) (omega arith) (ground arith) lt dsa dsb za zb
]
