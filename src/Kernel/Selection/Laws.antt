-- ===== src/Kernel/Selection/Laws.antt =====
-- What a reconciled selection holds.
use shape_ai.Common.{
  List, [], ◌∷◌, Bool, filter, ◌≡◌, refl, arith, Bool-cases, inl, inr, ap, sym, ◌∙◌,
}
use shape_ai.Common.Str.{str_key}
use shape_ai.Kernel.Model.{ObjectId, ObjectScene, ObjectSelection, canvas, object, multi}
use shape_ai.Kernel.Selection.{is_live, collapse, valid_selection}

-- The ids that a selection names.
abbrev pub ids_of : ObjectSelection → List ObjectId
ids_of canvas = []
ids_of (object id) = id ∷ []
ids_of (multi ids) = ids

ids_of-collapse : (ids : List ObjectId) → ids_of (collapse ids) ≡ ids
ids_of-collapse [] = refl
ids_of-collapse (x ∷ []) = refl
ids_of-collapse (x ∷ y ∷ l) = refl

-- A reconciled selection names the live ids of the selection it is made of, in their order, and
-- nothing else.
pub ids_of-valid_selection :
    (scene : ObjectScene) (s : ObjectSelection)
    → ids_of (valid_selection scene s) ≡ filter (is_live scene) (ids_of s)
unfolding valid_selection
ids_of-valid_selection scene canvas = refl
ids_of-valid_selection scene (object id) = ground arith
ids_of-valid_selection scene (multi ids) = ids_of-collapse (filter (is_live scene) ids)

module _ {ℓ} {A : Type ℓ} (p : A → Bool) where
  filter-filter : (l : List A) → filter p (filter p l) ≡ filter p l
  filter-filter [] = refl
  filter-filter (x ∷ l) = elim (Bool-cases (p x)) [
    | inl e ↦ rw (e, e, filter-filter l)
    | inr e ↦ rw (e, filter-filter l)
  ]

-- The kind that fits the number of ids.
valid_selection-collapse :
    (scene : ObjectScene) (s : ObjectSelection)
    → valid_selection scene s ≡ collapse (filter (is_live scene) (ids_of s))
unfolding valid_selection
valid_selection-collapse scene canvas = refl
valid_selection-collapse scene (object id) = ground arith
valid_selection-collapse scene (multi ids) = refl

-- A reconciled selection is one that reconciling again leaves as it is.
pub valid_selection_idempotent :
    (scene : ObjectScene) (s : ObjectSelection)
    → valid_selection scene (valid_selection scene s) ≡ valid_selection scene s
valid_selection_idempotent scene s =
    valid_selection-collapse scene (valid_selection scene s)
    ∙ ap collapse (
        ap (filter (is_live scene)) (ids_of-valid_selection scene s)
        ∙ filter-filter (is_live scene) (ids_of s))
    ∙ sym (valid_selection-collapse scene s)
