-- ===== src/Kernel/Op.antt =====
-- crates/scene-core/src/object/kernel/op.rs: the operations. A batch holds its operations in a list
-- type of its own, `Ops`.
use shape_ai.Common.{
  List, [], ◌∷◌, ◌++◌, Bool, true, false, Option, none, some, any, ◌==◌, if◌then◌else◌,
}
use shape_ai.Common.Str.{Str, str_key}
use shape_ai.Common.Int.{ℤ}
use shape_ai.Kernel.Model.{
  ObjectId, Object, Geometry, Transform3x3, Fill, Stroke, Text, Anchor, Layout, Sizing, Comment,
}

pub data FieldEdit {ℓ} (A : Type ℓ) : Type ℓ where
  set : (value : A) → FieldEdit A
  clear : FieldEdit A

abbrev pub from_option {ℓ} : {A : Type ℓ} → Option A → FieldEdit A
from_option (some value) = set value
from_option none = clear

-- The current value is not read.
abbrev pub resolve {ℓ} : {A : Type ℓ} → FieldEdit A → Option A
resolve (set value) = some value
resolve clear = none

mutual
  pub data ObjectOp : Type 0 where
    insert_object : (object : Object) → ObjectOp
    edit_geometry : (id : ObjectId) (geometry : Geometry) → ObjectOp
    set_transform : (id : ObjectId) (transform : Transform3x3) → ObjectOp
    set_style :
        (id : ObjectId) (fill : Option (FieldEdit Fill)) (stroke : Option (FieldEdit Stroke))
        → ObjectOp
    set_text : (id : ObjectId) (text : Option Text) → ObjectOp
    set_anchor : (id : ObjectId) (anchors : List Anchor) → ObjectOp
    set_layout : (id : ObjectId) (layout : Option Layout) → ObjectOp
    set_clip : (id : ObjectId) (clip : Option Bool) → ObjectOp
    set_sizing : (id : ObjectId) (sizing : Option Sizing) → ObjectOp
    set_meta :
        (id : ObjectId) (name : Option (FieldEdit Str)) (hidden locked : Option Bool) → ObjectOp
    canonicalize : (id : ObjectId) → ObjectOp
    add_comment : (id : ObjectId) (comment : Comment) → ObjectOp
    set_comments : (id : ObjectId) (comments : List Comment) → ObjectOp
    set_tags : (id : ObjectId) (tags : List Str) → ObjectOp
    reparent : (id : ObjectId) (parent : Option ObjectId) (order : Str) → ObjectOp
    reorder : (id : ObjectId) (order : Str) → ObjectOp
    delete : (id : ObjectId) → ObjectOp
    split : (id : ObjectId) (new_ids : List ObjectId) (contours : List ℤ) → ObjectOp
    merge : (ids : List ObjectId) (into : Option ObjectId) → ObjectOp
    batch : (ops : Ops) → ObjectOp

  pub data Ops : Type 0 where
    nil : Ops
    cons : ObjectOp → Ops → Ops

abbrev pub ops_of : List ObjectOp → Ops
ops_of [] = nil
ops_of (op ∷ l) = cons op (ops_of l)

-- `matches!(op, Batch { ops } if ops.is_empty())`: the operation that changes nothing.
unfoldable pub is_empty_batch : ObjectOp → Bool
is_empty_batch (batch nil) = true
is_empty_batch _ = false

abbrev pub with_parent : ObjectId → Option ObjectId → List ObjectId
with_parent id none = id ∷ []
with_parent id (some p) = id ∷ p ∷ []

abbrev with_into : List ObjectId → Option ObjectId → List ObjectId
with_into ids none = ids
with_into ids (some i) = if any (λ x. x == i) ids then ids else ids ++ i ∷ []

unfoldable mutual
  pub target_ids : ObjectOp → List ObjectId
  target_ids (insert_object object) = with_parent object.id object.parent
  target_ids (edit_geometry id _) = id ∷ []
  target_ids (set_transform id _) = id ∷ []
  target_ids (set_style id _ _) = id ∷ []
  target_ids (set_text id _) = id ∷ []
  target_ids (set_anchor id _) = id ∷ []
  target_ids (set_layout id _) = id ∷ []
  target_ids (set_clip id _) = id ∷ []
  target_ids (set_sizing id _) = id ∷ []
  target_ids (set_meta id _ _ _) = id ∷ []
  target_ids (canonicalize id) = id ∷ []
  target_ids (add_comment id _) = id ∷ []
  target_ids (set_comments id _) = id ∷ []
  target_ids (set_tags id _) = id ∷ []
  target_ids (reorder id _) = id ∷ []
  target_ids (delete id) = id ∷ []
  target_ids (reparent id parent _) = with_parent id parent
  target_ids (split id new_ids _) = id ∷ new_ids
  target_ids (merge ids into) = with_into ids into
  target_ids (batch ops) = target_ids_of ops

  pub target_ids_of : Ops → List ObjectId
  target_ids_of nil = []
  target_ids_of (cons op ops) = target_ids op ++ target_ids_of ops
