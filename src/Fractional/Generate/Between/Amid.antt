-- ===== src/Fractional/Generate/Between/Amid.antt =====
-- generate_key_between of crates/scene-core/src/fractional.rs between two keys with different integer parts.
use native.Mathlib.Decide.{ℕ_discrete}
use shape_ai.Common.{
  ℕ, suc, ◌≡◌, ◌≢◌, refl, sym, ap, ◌∙◌, [], ◌∷◌, ◌++◌, append-nil, true, false, inl, inr, Option,
  none, some, arith, Bool-cases, eq_iff, eq_of_ne,
}
use shape_ai.Common.Str.{
  Str, str_lt, str_key, str_lt-append, differs_below, differs_below-append, differs_below_of_length,
}
use shape_ai.Common.Result.{Result, ok}
use shape_ai.Fractional.Digits.{KeyError, digit_index, max_digit}
use shape_ai.Fractional.{get_integer_length, ends_in_zero}
use shape_ai.Fractional.Midpoint.{IsDigits, midpoint-IsBetween}
use shape_ai.Fractional.Integer.{
  IsInteger, IsLast, NextOf, AllAre, increment_integer-NextOf, increment_integer,
}
use shape_ai.Fractional.Key.{drop-append}
use shape_ai.Fractional.Generate.{key_amid}
use shape_ai.Fractional.Generate.Between.Parts.{
  Generates, IsKey-integer, IsKey-fraction, cut, raised,
}

ok-injective : {n m : ℕ} → ◌≡◌ {A = Result KeyError ℕ} (ok (suc n)) (ok (suc m)) → n ≡ m
ok-injective h = cc h

all_largest : (s t : Str) → AllAre max_digit s → IsDigits t → differs_below s t ≡ false
unfolding digit_index
all_largest s [] h ds = refl
all_largest [] (y ∷ t) h ds = refl
all_largest (x ∷ s) (y ∷ t) h ((d, e), ds) = ground (arith, all_largest s t h.1 ds)

-- Nothing lies above the last integer part.
IsLast-max : (i j : Str) → IsLast i → IsInteger j → differs_below i j ≡ false
unfolding get_integer_length
IsLast-max [] j l h = absurd l
IsLast-max (x ∷ s) [] l h = absurd h
IsLast-max (x ∷ s) (y ∷ t) l (e, ds) = ground (arith, all_largest s t l.1 ds)

-- Different integer parts are told apart by a byte of both: the head says how long each is.
integer_order :
    (i j f g : Str)
    → IsInteger i
    → IsInteger j
    → i ≢ j
    → str_lt (i ++ f) (j ++ g) ≡ true
    → differs_below i j ≡ true
integer_order [] j f g h k n lt = absurd h
integer_order (x ∷ s) [] f g h k n lt = absurd k
integer_order (x ∷ s) (y ∷ t) f g h k n lt = elim (ℕ_discrete x y) [
  | yes e ↦
      differs_below_of_length (x ∷ s) (y ∷ t) f g
        (ap suc (ok-injective (sym h.0 ∙ ap get_integer_length e ∙ k.0))) n lt
  | no d ↦ ground arith
]

module _ (i f j g : Str) (hi : IsInteger i) (hf : IsDigits f) (zf : ends_in_zero f ≡ false)
    (hj : IsInteger j) (hg : IsDigits g) (zg : ends_in_zero g ≡ false)
    (lt : str_lt (i ++ f) (j ++ g) ≡ true) where
  pub amid_same : i ≡ j → Generates (some (i ++ f)) (some (j ++ g)) (key_amid (i ++ f) (j ++ g))
  unfolding key_amid
  amid_same e =
      let less : str_lt f g ≡ true = rw (e, str_lt-append j f g) at lt in
      let (m, run, between) = midpoint-IsBetween f (some g) hf zf (less, hg, zg) in
      (
        i ++ m,
        rw (
          cut i f hi hf zf,
          cut j g hj hg zg,
          drop-append i f,
          drop-append j g,
          (eq_iff i j).1 e,
          run,
        ),
        record {
          above = rw (str_lt-append i f m) between.above;
          below = rw (e, str_lt-append j m g) between.below;
          key = IsKey-fraction i m hi between.digits between.no_zero;
        },
      )

  pub amid_apart : i ≢ j → Generates (some (i ++ f)) (some (j ++ g)) (key_amid (i ++ f) (j ++ g))
  unfolding key_amid
  amid_apart n = let (r, run, next) = increment_integer-NextOf i hi in step r run next
    where
      apart : differs_below i j ≡ true
      apart = integer_order i j f g hi hj n lt

      step :
          (r : Option Str)
          → increment_integer i ≡ ok r
          → NextOf i r
          → Generates (some (i ++ f)) (some (j ++ g)) (key_amid (i ++ f) (j ++ g))
      step none run next = cc (apart, IsLast-max i j next hj)
      step (some y) run next = elim (Bool-cases (str_lt y (j ++ g))) [
        | inl below ↦ (
          y,
          rw (cut i f hi hf zf, cut j g hj hg zg, eq_of_ne i j n, run, below),
          record {
            above = rw (append-nil y) at (differs_below-append i y f [] next.1);
            below = below;
            key = IsKey-integer y next.0;
          },
        )
        | inr beyond ↦
            let (m, found, between) = midpoint-IsBetween f none hf zf tt in
            (
              i ++ m,
              rw (
                cut i f hi hf zf,
                cut j g hj hg zg,
                drop-append i f,
                eq_of_ne i j n,
                run,
                beyond,
                found,
              ),
              record {
                above = (raised i f hi hf zf m between).0;
                below = differs_below-append i j m g apart;
                key = (raised i f hi hf zf m between).1;
              },
            )
      ]
