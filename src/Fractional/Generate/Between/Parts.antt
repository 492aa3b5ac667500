-- ===== src/Fractional/Generate/Between/Parts.antt =====
-- Integer parts and fractions of keys in order, for generate_key_between of crates/scene-core/src/fractional.rs.
use mathlib.Core.Path.{ap₂}
use shape_ai.Common.{
  ℕ, suc, ◌≡◌, ◌≢◌, refl, sym, ap, ◌∙◌, [], ◌∷◌, ◌++◌, append-nil, Bool, true, false, inl, inr,
  Option, none, some, arith, length, Bool-cases, ◌==◌, eq_iff, eq_of_ne,
}
use shape_ai.Common.Str.{Str, bytes, str_lt, str_key, str_lt-append, differs_below-append}
use shape_ai.Common.Result.{Result, ok}
use shape_ai.Fractional.Digits.{KeyError, zero_digit}
use shape_ai.Fractional.{smallest_integer, get_integer_length, get_integer_part, ends_in_zero}
use shape_ai.Fractional.Midpoint.{IsDigits, IsBetween, lt_upper, midpoint-IsBetween}
use shape_ai.Fractional.Integer.{
  IsInteger, IsFirst, NextOf, PreviousOf, AllAre, increment_integer-NextOf,
  decrement_integer-PreviousOf, increment_integer, decrement_integer,
}
use shape_ai.Fractional.Key.{IsKey, validate-HasShape, get_integer_part-append, drop-append}
use shape_ai.Fractional.Generate.{key_before, key_after}

abbrev pub gt_lower : Option Str → Str → Bool
gt_lower none k = true
gt_lower (some a) k = str_lt a k

-- A key between the bounds. The least integer part, which is no key, lies above no key.
pub record IsKeyBetween (a b : Option Str) (k : Str) : Type 0 where
  pub above : gt_lower a k ≡ true
  pub below : lt_upper k b ≡ true
  pub key : k ≢ smallest_integer → IsKey k

abbrev pub Generates : Option Str → Option Str → Result KeyError Str → Type 0
Generates a b r = (k : Str) × (r ≡ ok k) × IsKeyBetween a b k

str_lt-cons : (i : Str) (c : ℕ) (s : Str) → str_lt i (i ++ c ∷ s) ≡ true
str_lt-cons [] c s = refl
str_lt-cons (d ∷ i) c s = ground (arith, str_lt-cons i c s)

-- An integer part, and one with a fraction behind it, are keys.
pub IsKey-integer : (i : Str) → IsInteger i → i ≢ smallest_integer → IsKey i
IsKey-integer i h n =
    validate-HasShape i i []
      (record { parts = sym (append-nil i); integer = h; fraction = tt; no_zero = refl }) n

pub IsKey-fraction :
    (i m : Str)
    → IsInteger i
    → IsDigits m
    → ends_in_zero m ≡ false
    → i ++ m ≢ smallest_integer
    → IsKey (i ++ m)
IsKey-fraction i m h ds z n =
    validate-HasShape (i ++ m) i m
      (record { parts = refl; integer = h; fraction = ds; no_zero = z }) n

AllAre-eq : (d : ℕ) (s t : Str) → AllAre d s → AllAre d t → length s ≡ length t → s ≡ t
AllAre-eq d [] [] h k e = refl
AllAre-eq d [] (y ∷ t) h k e = absurd (omega arith)
AllAre-eq d (x ∷ s) [] h k e = absurd (omega arith)
AllAre-eq d (x ∷ s) (y ∷ t) h k e = ground (arith, AllAre-eq d s t h.1 k.1)

pub first_length : (n : ℕ) → get_integer_length b'A' ≡ ok (suc n) → n ≡ 26
unfolding get_integer_length
first_length n e = cc e

-- Only the least integer part has none before it.
IsFirst-eq : (x : Str) → IsInteger x → IsFirst x → x ≡ smallest_integer
IsFirst-eq [] h f = absurd h
IsFirst-eq (head ∷ s) h f =
    let n = first_length (length s) (rw f.0 at h.0) in
    ap₂ (λ c t. c ∷ t) f.0
      (AllAre-eq zero_digit s (bytes "00000000000000000000000000") f.1 (omega arith) n)

nil_lt : (s : Str) → s ≢ [] → str_lt [] s ≡ true
nil_lt [] n = absurd (n refl)
nil_lt (c ∷ s) n = refl

nil_of_ge : (i f : Str) → str_lt i (i ++ f) ≡ false → f ≡ []
nil_of_ge i [] h = refl
nil_of_ge i (c ∷ s) h = cc (h, str_lt-cons i c s)

-- The parts of a bound.
module _ (i f : Str) (hi : IsInteger i) (hf : IsDigits f) (z : ends_in_zero f ≡ false) where
  pub cut : get_integer_part (i ++ f) ≡ ok i
  cut = get_integer_part-append i f hi hf

  before_smallest :
      i ++ f ≢ smallest_integer
      → i ≡ smallest_integer
      → Generates none (some (i ++ f)) (key_before (i ++ f))
  unfolding key_before
  before_smallest n e =
      let (m, run, between) =
        midpoint-IsBetween [] (some f) tt refl
          (nil_lt f (λ q. n (ap (λ t. i ++ t) q ∙ append-nil i ∙ e)), hf, z) in
      (
        i ++ m,
        rw (cut, drop-append i f, (eq_iff i smallest_integer).1 e, run),
        record {
          above = refl;
          below = rw (str_lt-append i m f) between.below;
          key = IsKey-fraction i m hi between.digits between.no_zero;
        },
      )

  before_fraction :
      i ≢ smallest_integer
      → str_lt i (i ++ f) ≡ true
      → Generates none (some (i ++ f)) (key_before (i ++ f))
  unfolding key_before
  before_fraction e lt = (
    i,
    rw (cut, drop-append i f, eq_of_ne i smallest_integer e, lt),
    record { above = refl; below = lt; key = IsKey-integer i hi },
  )

  before_integer :
      i ≢ smallest_integer
      → str_lt i (i ++ f) ≡ false
      → Generates none (some (i ++ f)) (key_before (i ++ f))
  unfolding key_before
  before_integer e ge =
      let (r, run, previous) = decrement_integer-PreviousOf i hi in step r run previous
    where
      step :
          (r : Option Str)
          → decrement_integer i ≡ ok r
          → PreviousOf i r
          → Generates none (some (i ++ f)) (key_before (i ++ f))
      step none run previous = absurd (e (IsFirst-eq i hi previous))
      step (some y) run previous = (
        y,
        rw (cut, drop-append i f, eq_of_ne i smallest_integer e, ge, run),
        record {
          above = refl;
          below = rw (append-nil y) at (differs_below-append y i [] f previous.1);
          key = IsKey-integer y previous.0;
        },
      )

  pub before : i ++ f ≢ smallest_integer → Generates none (some (i ++ f)) (key_before (i ++ f))
  before n = elim (Bool-cases (i == smallest_integer)) [
    | inl e ↦ before_smallest n ((eq_iff i smallest_integer).0 e)
    | inr ne ↦
        let d : i ≢ smallest_integer = λ q. cc (ne, (eq_iff i smallest_integer).1 q) in
        elim (Bool-cases (str_lt i (i ++ f))) [
          | inl lt ↦ before_fraction d lt
          | inr ge ↦ before_integer d ge
        ]
  ]

  -- The integer part with a larger fraction.
  pub raised :
      (m : Str)
      → IsBetween f none m
      → (str_lt (i ++ f) (i ++ m) ≡ true) × (i ++ m ≢ smallest_integer → IsKey (i ++ m))
  raised m between =
      (rw (str_lt-append i f m) between.above, IsKey-fraction i m hi between.digits between.no_zero)

  pub after : Generates (some (i ++ f)) none (key_after (i ++ f))
  unfolding key_after
  after = let (r, run, next) = increment_integer-NextOf i hi in step r run next
    where
      step :
          (r : Option Str)
          → increment_integer i ≡ ok r
          → NextOf i r
          → Generates (some (i ++ f)) none (key_after (i ++ f))
      step none run next =
          let (m, found, between) = midpoint-IsBetween f none hf z tt in
          (
            i ++ m,
            rw (cut, run, drop-append i f, found),
            record { above = (raised m between).0; below = refl; key = (raised m between).1 },
          )
      step (some y) run next = (
        y,
        rw (cut, run),
        record {
          above = rw (append-nil y) at (differs_below-append i y f [] next.1);
          below = refl;
          key = IsKey-integer y next.0;
        },
      )
