-- ===== src/Common/Lists.antt =====
-- Lists measured and indexed by native numbers, under the library's names.
use Prim.Native.Nat.{ℕ, zero, suc, ◌+◌, ◌≤◌}
use mathlib.Core.Path.{◌≡◌, refl, ap}
use mathlib.Core.List.{List, [], ◌∷◌, ◌++◌}
use mathlib.Core.Bool.{Bool, true, false, ◌&&◌, ◌||◌}
use mathlib.Core.Option.{Option, none, some}
use native.Mathlib.Omega.{arith}
use shape_ai.Common.Tests.{if◌then◌else◌, Bool-cases}
use mathlib.Core.Logic.{inl, inr}

module _ {ℓ} {A : Type ℓ} where
  abbrev pub length : List A → ℕ
  length [] = 0
  length (x ∷ xs) = suc (length xs)

  abbrev pub get_elem? : List A → ℕ → Option A
  get_elem? [] i = none
  get_elem? (x ∷ xs) zero = some x
  get_elem? (x ∷ xs) (suc i) = get_elem? xs i

  abbrev pub take : ℕ → List A → List A
  take zero xs = []
  take (suc n) [] = []
  take (suc n) (x ∷ xs) = x ∷ take n xs

  abbrev pub drop : ℕ → List A → List A
  drop zero xs = xs
  drop (suc n) [] = []
  drop (suc n) (x ∷ xs) = drop n xs

  abbrev pub is_empty : List A → Bool
  is_empty [] = true
  is_empty (x ∷ xs) = false

  -- `Iterator::any`, `Iterator::all` and `filter` with a Boolean test.
  abbrev pub any : (A → Bool) → List A → Bool
  any p [] = false
  any p (x ∷ xs) = p x || any p xs

  abbrev pub all : (A → Bool) → List A → Bool
  all p [] = true
  all p (x ∷ xs) = p x && all p xs

  abbrev pub filter : (A → Bool) → List A → List A
  filter p [] = []
  filter p (x ∷ xs) = let rest = filter p xs in if p x then x ∷ rest else rest

  -- `Iterator::find`.
  abbrev pub find : (A → Bool) → List A → Option A
  find p [] = none
  find p (x ∷ xs) = let rest = find p xs in if p x then some x else rest

  -- A predicate of every element.
  abbrev pub All {κ} : (A → Type κ) → List A → Type κ
  All P [] = Unit
  All P (x ∷ xs) = P x × All P xs

  pub length-append : (xs ys : List A) → length (xs ++ ys) ≡ length xs + length ys
  length-append [] ys = omega arith
  length-append (x ∷ xs) ys = omega (arith, length-append xs ys)

  pub take-append-drop : (n : ℕ) (xs : List A) → take n xs ++ drop n xs ≡ xs
  take-append-drop zero xs = refl
  take-append-drop (suc n) [] = refl
  take-append-drop (suc n) (x ∷ xs) = ap (λ r. x ∷ r) (take-append-drop n xs)

  pub length-filter-le : (p : A → Bool) (xs : List A) → length (filter p xs) ≤ length xs
  length-filter-le p [] = omega arith
  length-filter-le p (x ∷ xs) = ground (arith, length-filter-le p xs)

  pub All-append {κ} : (P : A → Type κ) (xs ys : List A) → All P xs → All P ys → All P (xs ++ ys)
  All-append P [] ys hx hy = hy
  All-append P (x ∷ xs) ys hx hy = (hx.0, All-append P xs ys hx.1 hy)

  -- `f` applied to the first element that passes the test.
  unfoldable pub edit_first : (A → Bool) → (A → A) → List A → List A
  edit_first p f [] = []
  edit_first p f (x ∷ l) = let rest = edit_first p f l in if p x then f x ∷ l else x ∷ rest

  unfoldable pub remove_first : (A → Bool) → List A → List A
  remove_first p [] = []
  remove_first p (x ∷ l) = let rest = remove_first p l in if p x then l else x ∷ rest

  pub find-edit_first :
      (p : A → Bool) (f : A → A) (l : List A) (a : A)
      → find p l ≡ some a
      → p (f a) ≡ true
      → find p (edit_first p f l) ≡ some (f a)
  unfolding edit_first
  find-edit_first p f [] a e k = cc e
  find-edit_first p f (x ∷ l) a e k = elim (Bool-cases (p x)) [
    | inl here ↦ let same : x ≡ a = cc (rw here at e) in rw (here, same, k)
    | inr there ↦ rw (there, there) (find-edit_first p f l a (rw there at e) k)
  ]

  -- An edit that is undone at the element that it touched.
  pub edit_first-edit_first :
      (p : A → Bool) (f g : A → A) (l : List A) (a : A)
      → find p l ≡ some a
      → p (f a) ≡ true
      → g (f a) ≡ a
      → edit_first p g (edit_first p f l) ≡ l
  unfolding edit_first
  edit_first-edit_first p f g [] a e k u = refl
  edit_first-edit_first p f g (x ∷ l) a e k u = elim (Bool-cases (p x)) [
    | inl here ↦ let same : x ≡ a = cc (rw here at e) in rw (here, same, k, u)
    | inr there ↦
        rw (there, there) (ap (λ t. x ∷ t) (edit_first-edit_first p f g l a (rw there at e) k u))
  ]
