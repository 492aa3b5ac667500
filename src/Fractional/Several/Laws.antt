-- ===== src/Fractional/Several/Laws.antt =====
-- Several keys are as many as asked for, valid, and in order.
use shape_ai.Common.{
  ℕ, zero, suc, ◌+◌, ◌-◌, ◌/◌, ◌<◌, ◌≡◌, refl, ap, Option, none, some, List, [], ◌∷◌, ◌++◌, true,
  arith, nat_eq, length, length-append, Bool-cases, inl, inr,
}
use shape_ai.Common.Str.{Str, str_lt}
use shape_ai.Common.Result.{Result, ok, ◌>>=◌}
use shape_ai.Fractional.Digits.{KeyError}
use shape_ai.Fractional.Midpoint.{lt_upper}
use shape_ai.Fractional.Key.{IsKey}
use shape_ai.Fractional.Generate.{generate_key_between}
use shape_ai.Fractional.Generate.Between.{generate-IsKeyBetween, generate-IsKey, IsBound, InOrder}
use shape_ai.Fractional.Several.{keys_above, many_keys, subdivide, generate_n_keys_between}

-- Valid keys that rise from above `a` to below `b`.
abbrev pub Rising : Str → List Str → Option Str → Type 0
Rising a [] b = lt_upper a b ≡ true
Rising a (k ∷ l) b = (str_lt a k ≡ true) × IsKey k × Rising k l b

Rising-append :
    (a c : Str) (l r : List Str) (b : Option Str)
    → Rising a l (some c)
    → IsKey c
    → Rising c r b
    → Rising a (l ++ c ∷ r) b
Rising-append a c [] r b h k g = (h, k, g)
Rising-append a c (x ∷ l) r b h k g = (h.0, h.1, Rising-append x c l r b h.2 k g)

abbrev pub Gives : ℕ → Str → Option Str → Result KeyError (List Str) → Type 0
Gives n a b r = (l : List Str) × (r ≡ ok l) × (length l ≡ n) × Rising a l b

in_order : (a : Str) (b : Option Str) → InOrder (some a) b → lt_upper a b ≡ true
in_order a none h = refl
in_order a (some b) h = h

stepped :
    (a : Str) (b : Option Str)
    → IsKey a
    → IsBound b
    → InOrder (some a) b
    → (k : Str) × (generate_key_between (some a) b ≡ ok k)
      × (str_lt a k ≡ true)
      × (lt_upper k b ≡ true)
      × IsKey k
stepped a b ha hb h =
    let (k, run, between) = generate-IsKeyBetween (some a) b ha hb h in
    (k, run, between.above, between.below, generate-IsKey a b k run)

keys_above-Gives : (n : ℕ) (a : Str) → IsKey a → Gives n a none (keys_above n a)
unfolding keys_above
keys_above-Gives zero a h = ([], refl, refl, refl)
keys_above-Gives (suc n) a h =
    let (k, run, above, below, valid) = stepped a none h tt tt in
    let (l, rest, count, rising) = keys_above-Gives n k valid in
    (k ∷ l, rw (run, rest) refl, ap suc count, (above, valid, rising))

one-Gives :
    (a : Str) (b : Option Str)
    → IsKey a
    → IsBound b
    → InOrder (some a) b
    → Gives 1 a b (generate_key_between (some a) b >>= λ c. ok (c ∷ []))
one-Gives a b ha hb h =
    let (k, run, above, below, valid) = stepped a b ha hb h in
    (k ∷ [], rw run refl, refl, (above, valid, below))

subdivide-Gives :
    (rounds : ℕ) (a b : Str) (n : ℕ)
    → n < rounds
    → IsKey a
    → IsKey b
    → str_lt a b ≡ true
    → Gives n a (some b) (subdivide rounds a b n)
unfolding subdivide
subdivide-Gives zero a b n lt ha hb h = absurd (omega arith)
subdivide-Gives (suc rounds) a b n lt ha hb h = elim (Bool-cases (nat_eq n 0)) [
  | inl none_asked ↦ rw none_asked ([], refl, ground arith, h)
  | inr some_asked ↦ elim (Bool-cases (nat_eq n 1)) [
    | inl one ↦
        let is_one : n ≡ 1 = ground arith in
        rw (some_asked, one) (rw (← is_one) at (one-Gives a (some b) ha hb h))
    | inr more ↦
        let (c, run, above, below, valid) = stepped a (some b) ha hb h in
        let (l, left, count_l, rising_l) =
          subdivide-Gives rounds a c (n / 2) (ground arith) ha valid above in
        let (r, right, count_r, rising_r) =
          subdivide-Gives rounds c b (n - n / 2 - 1) (ground arith) valid hb below in
        (
          l ++ c ∷ r,
          rw (some_asked, more, run, left, right) refl,
          ground (arith, length-append l (c ∷ r), count_l, count_r),
          Rising-append a c l r (some b) rising_l valid rising_r,
        )
  ]
]

many-Gives :
    (a : Str) (b : Option Str) (n : ℕ)
    → 0 < n
    → IsKey a
    → IsBound b
    → InOrder (some a) b
    → Gives n a b (many_keys (some a) b n)
many-Gives a none n pos ha hb h =
    let (c, run, above, below, valid) = stepped a none ha tt tt in
    let (l, rest, count, rising) = keys_above-Gives (n - 1) c valid in
    (c ∷ l, rw (run, rest) refl, omega (arith, count), (above, valid, rising))
many-Gives a (some b) n pos ha hb h = subdivide-Gives (n + 1) a b n (omega arith) ha hb h

-- Above a valid lower bound, and below a valid upper bound in order with it or with none, exactly `n`
-- keys are generated; all are valid, and they rise strictly from above the lower to below the upper
-- bound. The call neither fails nor panics nor runs out of rounds.
pub generate_n-Rising :
    (a : Str) (b : Option Str) (n : ℕ)
    → IsKey a
    → IsBound b
    → InOrder (some a) b
    → Gives n a b (generate_n_keys_between (some a) b n)
unfolding generate_n_keys_between
generate_n-Rising a b n ha hb h = elim (Bool-cases (nat_eq n 0)) [
  | inl none_asked ↦ rw none_asked ([], refl, ground arith, in_order a b h)
  | inr some_asked ↦ elim (Bool-cases (nat_eq n 1)) [
    | inl one ↦
        let is_one : n ≡ 1 = ground arith in
        rw (some_asked, one) (rw (← is_one) at (one-Gives a b ha hb h))
    | inr more ↦ rw (some_asked, more) (many-Gives a b n (ground arith) ha hb h)
  ]
]
