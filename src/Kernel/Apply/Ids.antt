-- ===== src/Kernel/Apply/Ids.antt =====
-- No two objects of a scene have one id, whatever is applied.
use shape_ai.Common.{
  ◌≡◌, refl, ◌∙◌, ap, List, [], ◌∷◌, ◌++◌, map, Bool, false, ◌||◌, arith, ◌==◌, eq_iff, any, filter,
  All, edit_first, remove_first, Bool-cases, inl, inr,
}
use shape_ai.Common.Str.{Str, str_key}
use shape_ai.Kernel.Model.{ObjectId, Object}
use shape_ai.Kernel.Edit.{has_id}

-- No two objects have one id.
abbrev pub UniqueIds : List Object → Type 0
UniqueIds [] = Unit
UniqueIds (o ∷ l) = (any (has_id o.id) l ≡ false) × UniqueIds l

abbrev pub KeepsId : (Object → Object) → Type 0
KeepsId f = (o : Object) → (f o).id ≡ o.id

has_id_kept :
    (f : Object → Object) → KeepsId f → (j : ObjectId) (o : Object) → has_id j (f o) ≡ has_id j o
has_id_kept f k j o = ap (λ (x : Str). x == j) (k o)

pub any-edit_first :
    (p : Object → Bool) (f : Object → Object) (k : KeepsId f) (j : ObjectId) (l : List Object)
    → any (has_id j) (edit_first p f l) ≡ any (has_id j) l
unfolding edit_first
any-edit_first p f k j [] = refl
any-edit_first p f k j (o ∷ l) = elim (Bool-cases (p o)) [
  | inl e ↦ rw e (ap (λ b. b || any (has_id j) l) (has_id_kept f k j o))
  | inr e ↦ rw e (ap (λ b. has_id j o || b) (any-edit_first p f k j l))
]

pub UniqueIds-edit_first :
    (p : Object → Bool) (f : Object → Object) (k : KeepsId f) (l : List Object)
    → UniqueIds l
    → UniqueIds (edit_first p f l)
unfolding edit_first
UniqueIds-edit_first p f k [] u = tt
UniqueIds-edit_first p f k (o ∷ l) u = elim (Bool-cases (p o)) [
  | inl e ↦ rw e (ap (λ i. any (has_id i) l) (k o) ∙ u.0, u.1)
  | inr e ↦ rw e (any-edit_first p f k o.id l ∙ u.0, UniqueIds-edit_first p f k l u.1)
]

pub any-map :
    (f : Object → Object) (k : KeepsId f) (j : ObjectId) (l : List Object)
    → any (has_id j) (map f l) ≡ any (has_id j) l
any-map f k j [] = refl
any-map f k j (o ∷ l) =
    ap (λ b. b || any (has_id j) (map f l)) (has_id_kept f k j o)
    ∙ ap (λ b. has_id j o || b) (any-map f k j l)

pub UniqueIds-map :
    (f : Object → Object) (k : KeepsId f) (l : List Object) → UniqueIds l → UniqueIds (map f l)
UniqueIds-map f k [] u = tt
UniqueIds-map f k (o ∷ l) u =
    (ap (λ i. any (has_id i) (map f l)) (k o) ∙ any-map f k o.id l ∙ u.0, UniqueIds-map f k l u.1)

module _ {ℓ} {A : Type ℓ} where
  pub any-remove_first :
      (q p : A → Bool) (l : List A) → any q l ≡ false → any q (remove_first p l) ≡ false
  unfolding remove_first
  any-remove_first q p [] h = refl
  any-remove_first q p (x ∷ l) h = ground (arith, any-remove_first q p l)

  any-filter : (q p : A → Bool) (l : List A) → any q l ≡ false → any q (filter p l) ≡ false
  any-filter q p [] h = refl
  any-filter q p (x ∷ l) h = ground (arith, any-filter q p l)

  any-append :
      (q : A → Bool) (l m : List A) → any q l ≡ false → any q m ≡ false → any q (l ++ m) ≡ false
  any-append q [] m h k = k
  any-append q (x ∷ l) m h k = ground (arith, any-append q l m)

pub UniqueIds-remove_first :
    (p : Object → Bool) (l : List Object) → UniqueIds l → UniqueIds (remove_first p l)
unfolding remove_first
UniqueIds-remove_first p [] u = tt
UniqueIds-remove_first p (o ∷ l) u = elim (Bool-cases (p o)) [
  | inl e ↦ rw e u.1
  | inr e ↦ rw e (any-remove_first (has_id o.id) p l u.0, UniqueIds-remove_first p l u.1)
]

pub UniqueIds-filter : (p : Object → Bool) (l : List Object) → UniqueIds l → UniqueIds (filter p l)
UniqueIds-filter p [] u = tt
UniqueIds-filter p (o ∷ l) u = elim (Bool-cases (p o)) [
  | inl e ↦ rw e (any-filter (has_id o.id) p l u.0, UniqueIds-filter p l u.1)
  | inr e ↦ rw e (UniqueIds-filter p l u.1)
]

-- Objects whose ids are new.
abbrev pub AllNew : List Object → List Object → Type 0
AllNew l m = All (λ (o : Object). any (has_id o.id) l ≡ false) m

key_sym : (a b : Str) → (a == b) ≡ false → (b == a) ≡ false
key_sym a b h = ground (arith, eq_iff a b, eq_iff b a)

AllNew-head : (o : Object) (l m : List Object) → AllNew (o ∷ l) m → any (has_id o.id) m ≡ false
AllNew-head o l [] h = refl
AllNew-head o l (x ∷ m) h = ground (arith, AllNew-head o l m h.1, key_sym o.id x.id)

AllNew-tail : (o : Object) (l m : List Object) → AllNew (o ∷ l) m → AllNew l m
AllNew-tail o l [] h = tt
AllNew-tail o l (x ∷ m) h = (ground arith, AllNew-tail o l m h.1)

pub UniqueIds-append :
    (l m : List Object) → UniqueIds l → UniqueIds m → AllNew l m → UniqueIds (l ++ m)
UniqueIds-append [] m u v new = v
UniqueIds-append (o ∷ l) m u v new = (
  any-append (has_id o.id) l m u.0 (AllNew-head o l m new),
  UniqueIds-append l m u.1 v (AllNew-tail o l m new),
)
