-- ===== src/Kernel/Apply/Forest.antt =====
-- Reparent in crates/scene-core/src/object/kernel/apply.rs against the chains of parents.
use mathlib.Core.Path.{subst}
use shape_ai.Common.{
  ℕ, zero, suc, ◌+◌, ◌≡◌, ◌≢◌, refl, sym, ◌∙◌, ap, List, [], ◌∷◌, false, Option, none, some, ◌==◌,
  eq_iff, eq_of_ne, find, length, edit_first, Bool-cases, inl, inr,
}
use shape_ai.Common.Str.{Str, str_key}
use shape_ai.Common.Result.{ok, fail_if-eq-ok}
use shape_ai.Kernel.Model.{ObjectId, Object, ObjectScene, get_object}
use shape_ai.Kernel.Op
use shape_ai.Kernel.Op.{ObjectOp}
use shape_ai.Kernel.Edit.{has_id, edited, parent_in, walk_up, would_cycle, cycle_under, reparent}
use shape_ai.Kernel.Apply.Restores.Fields.{edit_back, found_after}
use shape_ai.Kernel.Apply.Ids.{KeepsId}

-- The parents above end at an object without one, or at an id that no object has.
pub data EndsIn (scene : ObjectScene) : Option ObjectId → Type 0 where
  rooted : EndsIn scene none
  under : (x : ObjectId) → EndsIn scene (parent_in scene x) → EndsIn scene (some x)

-- No chain of parents runs in a circle.
abbrev pub IsForest : ObjectScene → Type 0
IsForest scene = (x : ObjectId) → EndsIn scene (some x)

ne_of_eq : (x y : ObjectId) → (x == y) ≡ false → x ≢ y
ne_of_eq x y h e = cc ((eq_iff x y).1 e, h)

pub find_elsewhere :
    (id j : ObjectId) (f : Object → Object) (l : List Object)
    → KeepsId f
    → j ≢ id
    → find (has_id j) l ≡ find (has_id j) (edit_first (has_id id) f l)
unfolding edit_first
find_elsewhere id j f [] keeps ne = refl
find_elsewhere id j f (x ∷ l) keeps ne = elim (Bool-cases (x.id == id)) [
  | inl here ↦
      let other : (x.id == j) ≡ false =
        eq_of_ne x.id j (λ e. ne (sym e ∙ (eq_iff x.id id).0 here)) in
      rw (here, keeps x, other) refl
  | inr away ↦ elim (Bool-cases (x.id == j)) [
    | inl found ↦ rw (away, found) refl
    | inr other ↦ rw (away, other) (find_elsewhere id j f l keeps ne)
  ]
]

parent_elsewhere :
    (scene : ObjectScene) (id j : ObjectId) (f : Object → Object)
    → KeepsId f
    → j ≢ id
    → parent_in scene j ≡ parent_in (edited scene id f) j
parent_elsewhere scene id j f keeps ne =
    ap (λ (o : Option Object). elim o as (λ _. Option ObjectId) [ none ↦ none | some x ↦ x.parent ])
      (find_elsewhere id j f scene.objects keeps ne)

-- The two scenes have the same parents but for one id.
abbrev SameBut : ObjectId → ObjectScene → ObjectScene → Type 0
SameBut id scene s' = (x : ObjectId) → x ≢ id → parent_in scene x ≡ parent_in s' x

walk_up-EndsIn :
    (scene s' : ObjectScene) (id : ObjectId)
    → SameBut id scene s'
    → (rounds : ℕ) (cursor : Option ObjectId) → walk_up rounds scene id cursor ≡ false
    → EndsIn s' cursor
unfolding walk_up
walk_up-EndsIn scene s' id same rounds none h = rooted
walk_up-EndsIn scene s' id same zero (some cur) h = cc
walk_up-EndsIn scene s' id same (suc rounds) (some cur) h = elim (Bool-cases (cur == id)) [
  | inl met ↦ cc (rw met at h)
  | inr away ↦ under cur (
      subst (EndsIn s') (same cur (ne_of_eq cur id away))
        (walk_up-EndsIn scene s' id same rounds (parent_in scene cur) (rw away at h)))
]

EndsIn-moved :
    (scene s' : ObjectScene) (id : ObjectId)
    → SameBut id scene s'
    → EndsIn s' (parent_in s' id)
    → (cursor : Option ObjectId) → EndsIn scene cursor
    → EndsIn s' cursor
EndsIn-moved scene s' id same base none rooted = rooted
EndsIn-moved scene s' id same base (some y) (under x rest) = elim (Bool-cases (x == id)) [
  | inl met ↦ under x (subst (λ z. EndsIn s' (parent_in s' z)) (sym ((eq_iff x id).0 met)) base)
  | inr away ↦ under x (
      subst (EndsIn s') (same x (ne_of_eq x id away))
        (EndsIn-moved scene s' id same base (parent_in scene x) rest))
]

-- The chain that the guard walked.
EndsIn-cycle_under :
    (scene s' : ObjectScene) (id : ObjectId) (parent : Option ObjectId)
    → SameBut id scene s'
    → cycle_under scene id parent ≡ false
    → EndsIn s' parent
unfolding would_cycle
EndsIn-cycle_under scene s' id none same h = rooted
EndsIn-cycle_under scene s' id (some p) same h = elim (Bool-cases (id == p)) [
  | inl met ↦ cc (rw met at h)
  | inr away ↦ walk_up-EndsIn scene s' id same (length scene.objects + 1) (some p) (rw away at h)
]

parent_in-edited :
    (scene : ObjectScene) (id : ObjectId) (f : Object → Object) (o : Object)
    → get_object scene id ≡ some o
    → (f o).id ≡ o.id
    → parent_in (edited scene id f) id ≡ (f o).parent
parent_in-edited scene id f o found keeps =
    ap (λ (r : Option Object). elim r as (λ _. Option ObjectId) [ none ↦ none | some x ↦ x.parent ])
      (found_after scene id f o found keeps)

-- A Reparent that is applied to a scene in which no chain of parents runs in a circle leaves none that
-- does, whatever the new parent is.
pub reparent-IsForest :
    (scene s' : ObjectScene) (id : ObjectId) (parent : Option ObjectId) (order : Str)
    (inverse : ObjectOp)
    → IsForest scene
    → reparent scene id parent order ≡ ok (s', inverse)
    → IsForest s'
unfolding reparent
reparent-IsForest scene s' id parent order inverse forest run x =
    let f : Object → Object = λ o. record o { parent = parent; order = order } in
    let (no_cycle, done) = fail_if-eq-ok _ _ _ run in
    let (o, found, inv_eq, is_edited, back) =
      edit_back scene s' id f (λ o. Op.reparent id o.parent o.order) inverse done (λ o. refl) in
    let same : SameBut id scene s' = λ y ne.
      parent_elsewhere scene id y f (λ o. refl) ne ∙ ap (λ s. parent_in s y) (sym is_edited) in
    let new_parent : parent_in s' id ≡ parent =
      ap (λ s. parent_in s id) is_edited ∙ parent_in-edited scene id f o found refl in
    EndsIn-moved scene s' id same
      (subst (EndsIn s') (sym new_parent) (EndsIn-cycle_under scene s' id parent same no_cycle))
      (some x) (forest x)
