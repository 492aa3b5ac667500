-- ===== src/Fractional/Key.antt =====
-- The shape of an order key: an integer part and a fraction that does not end in '0'.
use shape_ai.Common.{
  ℕ, zero, suc, ◌-◌, ◌≤◌, ◌≡◌, ◌≢◌, refl, sym, ap, ◌∙◌, [], ◌∷◌, ◌++◌, Bool, true, false, arith,
  ltb, length, take, drop, take-append-drop, not, length-append, ◌==◌, eq_of_ne, eq_of_ne,
}
use shape_ai.Common.Str.{Str, str_key}
use shape_ai.Common.Result.{ok, fail_if, >>=-eq-ok, fail_if-eq-ok}
use shape_ai.Fractional.Digits.{KeyError, digit_index}
use shape_ai.Fractional.{
  get_integer_length, get_integer_part, check_digits, ends_in_zero, validate_order_key,
  smallest_integer, at_char_boundary,
}
use shape_ai.Fractional.Midpoint.{IsDigits}
use shape_ai.Fractional.Integer.{IsInteger}

pub record HasShape (key i f : Str) : Type 0 where
  pub parts : key ≡ i ++ f
  pub integer : IsInteger i
  pub fraction : IsDigits f
  pub no_zero : ends_in_zero f ≡ false

abbrev pub IsKey : Str → Type 0
IsKey key = validate_order_key key ≡ ok tt

check_digits-IsDigits : (s : Str) → check_digits s ≡ ok tt → IsDigits s
unfolding check_digits
check_digits-IsDigits [] h = tt
check_digits-IsDigits (c ∷ s) h =
    let (d, e, k) = >>=-eq-ok (digit_index c) _ h in ((d, e), check_digits-IsDigits s k)

IsDigits-check_digits : (s : Str) → IsDigits s → check_digits s ≡ ok tt
unfolding check_digits
IsDigits-check_digits [] h = refl
IsDigits-check_digits (c ∷ s) ((d, e), ds) = rw e (IsDigits-check_digits s ds)

take-append : (s t : Str) → take (length s) (s ++ t) ≡ s
take-append [] t = refl
take-append (c ∷ s) t = ap (λ r. c ∷ r) (take-append s t)

pub drop-append : (s t : Str) → drop (length s) (s ++ t) ≡ t
drop-append [] t = refl
drop-append (c ∷ s) t = drop-append s t

length-take_of_le : (n : ℕ) (s : Str) → n ≤ length s → length (take n s) ≡ n
length-take_of_le zero s h = refl
length-take_of_le (suc n) [] h = absurd (omega arith)
length-take_of_le (suc n) (c ∷ s) h = ap suc (length-take_of_le n s (omega arith))

boundary_of_digits : (s : Str) → IsDigits s → at_char_boundary s ≡ true
unfolding digit_index
boundary_of_digits [] h = refl
boundary_of_digits (c ∷ s) ((d, e), ds) = ground arith

-- The integer part of a string of the shape is its first part.
pub get_integer_part-append :
    (i f : Str) → IsInteger i → IsDigits f → get_integer_part (i ++ f) ≡ ok i
unfolding get_integer_part
get_integer_part-append [] f h ds = absurd h
get_integer_part-append (head ∷ s) f (e, dsi) ds =
    let fits : ltb (suc (length (s ++ f))) (suc (length s)) ≡ false =
      ground (arith, length-append s f) in
    rw (e, fits, drop-append s f, boundary_of_digits f ds, take-append s f)

pub validate-append :
    (i f : Str)
    → IsInteger i
    → IsDigits f
    → ends_in_zero f ≡ false
    → i ++ f ≢ smallest_integer
    → IsKey (i ++ f)
unfolding validate_order_key
validate-append [] f h ds z n = absurd h
validate-append (head ∷ s) f (e, dsi) ds z n =
    let other : (((head ∷ s) ++ f) == smallest_integer) ≡ false =
      eq_of_ne ((head ∷ s) ++ f) smallest_integer n in
    rw (
      other,
      get_integer_part-append (head ∷ s) f (e, dsi) ds,
      IsDigits-check_digits s dsi,
      drop-append s f,
      IsDigits-check_digits f ds,
      z,
    )

-- What has the shape and is not the least integer passes the validation.
pub validate-HasShape : (key i f : Str) → HasShape key i f → key ≢ smallest_integer → IsKey key
validate-HasShape key i f shape n =
    rw shape.parts
      (validate-append i f shape.integer shape.fraction shape.no_zero (λ e. n (shape.parts ∙ e)))

-- A successful `get_integer_part` cuts at the length that the head announces.
length_pos : (head len : ℕ) → get_integer_length head ≡ ok len → (n : ℕ) × (len ≡ suc n)
unfolding get_integer_length
length_pos head len h = (len - 1, ground arith)

get_integer_part-ok :
    (head : ℕ) (s i : Str)
    → get_integer_part (head ∷ s) ≡ ok i
    → (n : ℕ) × (get_integer_length head ≡ ok (suc n)) × (n ≤ length s) × (i ≡ head ∷ take n s)
unfolding get_integer_part
get_integer_part-ok head s i h =
    let (len, announced, k) = >>=-eq-ok (get_integer_length head) _ h in
    let (fits, k') = fail_if-eq-ok (ltb (suc (length s)) len) _ _ k in
    let (clear, k'') = fail_if-eq-ok (not (at_char_boundary (drop len (head ∷ s)))) _ _ k' in
    let (n, e) = length_pos head len announced in
    (n, rw e at announced, ground (arith, fits), cc (rw e at k''))

pub not_smallest : (key : Str) → IsKey key → key ≢ smallest_integer
unfolding validate_order_key
not_smallest key h e = cc (rw e at h)

not_empty : ¬ IsKey []
unfolding validate_order_key get_integer_part
not_empty h = cc h

passed : (b : Bool) (e : KeyError) → fail_if b e ≡ ok tt → b ≡ false
passed true e h = cc
passed false e h = refl

-- What the checks after the cut establish.
HasShape-cut :
    (head : ℕ) (s : Str) (n : ℕ)
    → get_integer_length head ≡ ok (suc n)
    → n ≤ length s
    → check_digits (take n s) ≡ ok tt
    → check_digits (drop n s) ≡ ok tt
    → ends_in_zero (drop n s) ≡ false
    → HasShape (head ∷ s) (head ∷ take n s) (drop n s)
HasShape-cut head s n e fits di df z = record {
  parts = ap (λ r. head ∷ r) (sym (take-append-drop n s));
  integer = (rw (length-take_of_le n s fits) e, check_digits-IsDigits (take n s) di);
  fraction = check_digits-IsDigits (drop n s) df;
  no_zero = z;
}

-- What passes the validation has the shape.
pub HasShape-validate : (key : Str) → IsKey key → (i : Str) × (f : Str) × HasShape key i f
unfolding validate_order_key
HasShape-validate [] h = absurd (not_empty h)
HasShape-validate (head ∷ s) h =
    let (other, k) = fail_if-eq-ok ((head ∷ s) == smallest_integer) _ _ h in
    let (i, cut, k') = >>=-eq-ok (get_integer_part (head ∷ s)) _ k in
    let (n, announced, fits, e) = get_integer_part-ok head s i cut in
    let kn = rw (length-take_of_le n s fits) at (rw e at k') in
    let (u, di, k2) = >>=-eq-ok (check_digits (take n s)) _ kn in
    let (v, df, k3) = >>=-eq-ok (check_digits (drop n s)) _ k2 in
    (head ∷ take n s, drop n s, HasShape-cut head s n announced fits di df (passed _ _ k3))
