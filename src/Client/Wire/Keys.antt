-- ===== src/Client/Wire/Keys.antt =====
-- The text of an id in crates/client-runtime/src/outbox.rs tells the id.
use mathlib.Core.Path.{subst}
use shape_ai.Common.{ℕ, suc, ◌≡◌, ◌≢◌, sym, ap, [], ◌∷◌, arith, All}
use shape_ai.Common.Int.{ℤ, pos, negsuc}
use shape_ai.Common.Str.{Str}
use shape_ai.Common.Decimal.{
  display, decimal, decimal-digits, decimal-injective, IsDecimal, split_last,
}
use shape_ai.Client.Wire.{OpId, op_id_key}

no_colon : (s : Str) → All IsDecimal s → All (λ c. c ≢ b':') s
no_colon [] h = tt
no_colon (c ∷ s) h = (λ e. absurd (omega (arith, h.0, e)), no_colon s h.1)

display-no_colon : (z : ℤ) → All (λ c. c ≢ b':') (display z)
unfolding display
display-no_colon (pos n) = no_colon (decimal n) (decimal-digits n)
display-no_colon (negsuc n) =
    ((λ e. absurd (omega (arith, e))), no_colon (decimal (suc n)) (decimal-digits (suc n)))

-- A number starts with no sign.
no_sign : (n : ℕ) (s : Str) → decimal n ≡ b'-' ∷ s → ⊥
no_sign n s e = let h = subst (All IsDecimal) e (decimal-digits n) in absurd (omega (arith, h.0))

tail_eq : {x : ℕ} {s t : Str} → x ∷ s ≡ x ∷ t → s ≡ t
tail_eq e = cc e

display-injective : (a b : ℤ) → display a ≡ display b → a ≡ b
unfolding display
display-injective (pos n) (pos m) e = ap pos (decimal-injective n m e)
display-injective (negsuc n) (negsuc m) e =
    ap negsuc (omega (arith, decimal-injective (suc n) (suc m) (tail_eq e)))
display-injective (pos n) (negsuc m) e = absurd (no_sign n (decimal (suc m)) e)
display-injective (negsuc n) (pos m) e = absurd (no_sign m (decimal (suc n)) (sym e))

-- The key tells the id.
pub op_id_key-injective : (a b : OpId) → op_id_key a ≡ op_id_key b → a ≡ b
unfolding op_id_key
op_id_key-injective a b e =
    let (c, n) =
      split_last b':' a.client_id b.client_id (display a.local_seq) (display b.local_seq)
        (display-no_colon a.local_seq) (display-no_colon b.local_seq) e in
    cc (c, display-injective a.local_seq b.local_seq n)
