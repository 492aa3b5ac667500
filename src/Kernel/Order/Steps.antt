-- ===== src/Kernel/Order/Steps.antt =====
-- reorder_step_ops of crates/scene-core/src/fractional.rs against the paint order.
use mathlib.Core.List.Permᴰ
use mathlib.Core.List.{Permᴰ}
use mathlib.Core.Path.{subst}
use mathlib.Core.Option.{some-injective, none-ne-some}
use shape_ai.Common.{
  ◌≡◌, refl, ◌∙◌, ap, Option, none, some, List, [], ◌∷◌, ◌++◌, true, false, ◌==◌, eq_iff,
  Bool-cases, inl, inr, append_assoc,
}
use shape_ai.Common.Str.{Str, str_lt, str_lt_irrefl, str_lt_trans, str_key}
use shape_ai.Kernel.Model.{ObjectId, Object, ObjectScene}
use shape_ai.Kernel.Op
use shape_ai.Kernel.Op.{ObjectOp}
use shape_ai.Kernel.Order.{
  ReorderDirection, forward, backward, insert_sorted, sort_onto, sorted_objects, neighbours, toward,
  swap_ops, step_from, reorder_step_ops,
}

-- No object is below one before it.
abbrev pub NoneBelow : Str → List Object → Type 0
NoneBelow k [] = Unit
NoneBelow k (o ∷ l) = (str_lt o.order k ≡ false) × NoneBelow o.order l

abbrev pub InKeyOrder : List Object → Type 0
InKeyOrder [] = Unit
InKeyOrder (o ∷ l) = NoneBelow o.order l

below_asym : (a b : Str) → str_lt a b ≡ true → str_lt b a ≡ false
below_asym a b h = elim (Bool-cases (str_lt b a)) [
  | inl less ↦ cc (str_lt_trans a b a h less, str_lt_irrefl a)
  | inr fine ↦ fine
]

insert_sorted-NoneBelow :
    (k : Str) (o : Object) (l : List Object)
    → str_lt o.order k ≡ false
    → NoneBelow k l
    → NoneBelow k (insert_sorted o l)
unfolding insert_sorted
insert_sorted-NoneBelow k o [] h n = (h, tt)
insert_sorted-NoneBelow k o (x ∷ l) h n = elim (Bool-cases (str_lt o.order x.order)) [
  | inl less ↦ rw less (h, (below_asym o.order x.order less, n.1))
  | inr more ↦ rw more (n.0, insert_sorted-NoneBelow x.order o l more n.1)
]

insert_sorted-InKeyOrder :
    (o : Object) (l : List Object) → InKeyOrder l → InKeyOrder (insert_sorted o l)
unfolding insert_sorted
insert_sorted-InKeyOrder o [] n = tt
insert_sorted-InKeyOrder o (x ∷ l) n = elim (Bool-cases (str_lt o.order x.order)) [
  | inl less ↦ rw less (below_asym o.order x.order less, n)
  | inr more ↦ rw more (insert_sorted-NoneBelow x.order o l more n)
]

sort_onto-InKeyOrder :
    (sorted l : List Object) → InKeyOrder sorted → InKeyOrder (sort_onto sorted l)
unfolding sort_onto
sort_onto-InKeyOrder sorted [] n = n
sort_onto-InKeyOrder sorted (o ∷ l) n =
    sort_onto-InKeyOrder (insert_sorted o sorted) l (insert_sorted-InKeyOrder o sorted n)

insert_sorted-Perm : (o : Object) (l : List Object) → Permᴰ (insert_sorted o l) (o ∷ l)
unfolding insert_sorted
insert_sorted-Perm o [] = Permᴰ.refl (o ∷ [])
insert_sorted-Perm o (x ∷ l) = elim (Bool-cases (str_lt o.order x.order)) [
  | inl less ↦ rw less (Permᴰ.refl (o ∷ x ∷ l))
  | inr more ↦
      rw more (Permᴰ.trans (Permᴰ.cons refl (insert_sorted-Perm o l)) (Permᴰ.swap refl refl))
]

sort_onto-Perm : (sorted l : List Object) → Permᴰ (sort_onto sorted l) (l ++ sorted)
unfolding sort_onto
sort_onto-Perm sorted [] = Permᴰ.refl sorted
sort_onto-Perm sorted (o ∷ l) =
    Permᴰ.trans (sort_onto-Perm (insert_sorted o sorted) l)
      (Permᴰ.trans (Permᴰ.append_left l (insert_sorted-Perm o sorted)) (Permᴰ.middle o l sorted))

abbrev first_of : List Object → Option Object
first_of [] = none
first_of (o ∷ l) = some o

abbrev last_of : Option Object → List Object → Option Object
last_of before [] = before
last_of before (o ∷ l) = last_of (some o) l

-- The object with the id stands in the list between the given neighbours.
abbrev Stands :
    ObjectId → Option Object → List Object → Option Object × Object × Option Object → Type 0
Stands id before l r =
    (front : List Object) × (back : List Object) × (l ≡ front ++ r.1 ∷ back)
    × (r.1.id ≡ id)
    × (last_of before front ≡ r.0)
    × (first_of back ≡ r.2)

neighbours-Stands :
    (id : ObjectId) (before : Option Object) (l : List Object)
    (r : Option Object × Object × Option Object)
    → neighbours id before l ≡ some r
    → Stands id before l r
unfolding neighbours
neighbours-Stands id before [] r h = absurd (none-ne-some _ h)
neighbours-Stands id before (o ∷ []) r h = elim (Bool-cases (o.id == id)) [
  | inl here ↦
      subst (Stands id before (o ∷ [])) (some-injective _ _ (rw here at h))
        ([], [], refl, (eq_iff o.id id).0 here, refl, refl)
  | inr away ↦ absurd (none-ne-some _ (rw away at h))
]
neighbours-Stands id before (o ∷ x ∷ l) r h = elim (Bool-cases (o.id == id)) [
  | inl here ↦
      subst (Stands id before (o ∷ x ∷ l)) (some-injective _ _ (rw here at h))
        ([], x ∷ l, refl, (eq_iff o.id id).0 here, refl, refl)
  | inr away ↦
      let (front, back, split, same, last, first) =
        neighbours-Stands id (some o) (x ∷ l) r (rw away at h) in
      (o ∷ front, back, ap (λ t. o ∷ t) split, same, last, first)
]

-- The list without its last object.
last_of-append :
    (x : Object) (before : Object) (l : List Object)
    → last_of (some before) l ≡ some x
    → (front : List Object) × (before ∷ l ≡ front ++ x ∷ [])
last_of-append x before [] h = ([], ap (λ o. o ∷ []) (some-injective _ _ h))
last_of-append x before (o ∷ l) h =
    let (front, split) = last_of-append x o l h in (before ∷ front, ap (λ t. before ∷ t) split)

-- The list has the two objects side by side, the first one lower.
abbrev Adjacent : Object → Object → List Object → Type 0
Adjacent low high l =
    (front : List Object) × (back : List Object) × (l ≡ front ++ low ∷ high ∷ back)

abbrev pub AdjacentToward : ReorderDirection → Object → Object → List Object → Type 0
AdjacentToward forward self neighbor l = Adjacent self neighbor l
AdjacentToward backward self neighbor l = Adjacent neighbor self l

-- The operations give the object with the id and its neighbour each other's order keys.
abbrev pub SwapsKeys : ReorderDirection → ObjectId → List Object → List ObjectOp → Type 0
SwapsKeys direction id l ops =
    (self : Object) × (neighbor : Object) × (self.id ≡ id)
    × AdjacentToward direction self neighbor l
    × (Op.reorder self.id neighbor.order ∷ Op.reorder neighbor.id self.order ∷ [] ≡ ops)

Adjacent-last_of :
    (self neighbor : Object) (front back l : List Object)
    → l ≡ front ++ self ∷ back
    → last_of none front ≡ some neighbor
    → Adjacent neighbor self l
Adjacent-last_of self neighbor [] back l split h = absurd (none-ne-some _ h)
Adjacent-last_of self neighbor (o ∷ front) back l split h =
    let (rest, parts) = last_of-append neighbor o front h in
    (
      rest,
      back,
      split ∙ ap (λ t. t ++ self ∷ back) parts ∙ append_assoc rest (neighbor ∷ []) (self ∷ back),
    )

Adjacent-first_of :
    (self neighbor : Object) (front back l : List Object)
    → l ≡ front ++ self ∷ back
    → first_of back ≡ some neighbor
    → Adjacent self neighbor l
Adjacent-first_of self neighbor front [] l split h = absurd (none-ne-some _ h)
Adjacent-first_of self neighbor front (o ∷ back) l split h =
    (front, back, split ∙ ap (λ x. front ++ self ∷ x ∷ back) (some-injective _ _ h))

swap-SwapsKeys :
    (direction : ReorderDirection) (id : ObjectId) (l : List Object) (self : Object)
    (neighbor : Option Object) (ops : List ObjectOp)
    → self.id ≡ id
    → ((x : Object) → neighbor ≡ some x → AdjacentToward direction self x l)
    → swap_ops self neighbor ≡ some ops
    → SwapsKeys direction id l ops
swap-SwapsKeys direction id l self none ops same stands h = absurd (none-ne-some _ h)
swap-SwapsKeys direction id l self (some x) ops same stands h =
    (self, x, same, stands x refl, some-injective _ _ h)

AdjacentToward-Stands :
    (direction : ReorderDirection) (id : ObjectId) (l : List Object)
    (r : Option Object × Object × Option Object)
    → Stands id none l r
    → (x : Object) → toward direction r.0 r.2 ≡ some x
    → AdjacentToward direction r.1 x l
AdjacentToward-Stands forward id l r (front, back, split, same, last, first) x h =
    Adjacent-first_of r.1 x front back l split (first ∙ h)
AdjacentToward-Stands backward id l r (front, back, split, same, last, first) x h =
    Adjacent-last_of r.1 x front back l split (last ∙ h)

step_from-SwapsKeys :
    (direction : ReorderDirection) (id : ObjectId) (l : List Object)
    (found : Option (Option Object × Object × Option Object)) (ops : List ObjectOp)
    → ((r : Option Object × Object × Option Object) → found ≡ some r → Stands id none l r)
    → step_from direction found ≡ some ops
    → SwapsKeys direction id l ops
step_from-SwapsKeys direction id l none ops stands h = absurd (none-ne-some _ h)
step_from-SwapsKeys direction id l (some (before, self, behind)) ops stands h =
    let here : Stands id none l (before, self, behind) = stands (before, self, behind) refl in
    swap-SwapsKeys direction id l self (toward direction before behind) ops here.3
      (AdjacentToward-Stands direction id l (before, self, behind) here) h

-- The objects of a scene are sorted into a rearrangement in the order of their keys. When a step in a
-- direction is offered for an id, its two operations exchange the keys of the object with the id and
-- of the object next to it in that order, in that direction.
pub reorder_step-SwapsKeys :
    (scene : ObjectScene) (id : ObjectId) (direction : ReorderDirection) (ops : List ObjectOp)
    → reorder_step_ops scene id direction ≡ some ops
    → InKeyOrder (sorted_objects scene)
      × Permᴰ (sorted_objects scene) scene.objects
      × SwapsKeys direction id (sorted_objects scene) ops
unfolding reorder_step_ops
reorder_step-SwapsKeys scene id direction ops h = (
  sort_onto-InKeyOrder [] scene.objects tt,
  Permᴰ.trans (sort_onto-Perm [] scene.objects) (Permᴰ.append-nil scene.objects),
  step_from-SwapsKeys direction id (sorted_objects scene)
      (neighbours id none (sorted_objects scene)) ops
      (neighbours-Stands id none (sorted_objects scene)) h,
)
