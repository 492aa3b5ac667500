-- ===== src/Kernel/Apply/Unique.antt =====
-- Every operation keeps the ids of a scene unique.
pub mod Handlers
pub mod Parts
use shape_ai.Common.{
  ◌≡◌, refl, ◌∙◌, List, [], ◌∷◌, ◌++◌, map, false, not, ◌||◌, Option, none, some, arith, ◌==◌, any,
  remove_first, is_empty, Bool-cases, inl, inr, length, nat_eq, Option-cases, All,
}
use shape_ai.Common.Int.{ℤ, pos, ◌+ℤ◌}
use shape_ai.Common.Str.{Str, str_key}
use shape_ai.Common.Result.{Result, ok, err, ◌>>=◌, fail_if, >>=-eq-ok, fail_if-eq-ok}
use shape_ai.Kernel.Model.{
  ObjectId, Object, ObjectScene, Geometry, Transform3x3, Anchor, SubPath, Text, get_object,
}
use shape_ai.Kernel.Op
use shape_ai.Kernel.Op.{ObjectOp, Ops, nil, cons, ops_of}
use shape_ai.Kernel.Edit.{
  ApplyError, Applied, has_id, index_of, is_there, edit_object, insert_object, delete,
  edit_geometry, set_transform, set_style, set_text, set_anchor, set_layout, set_clip, set_sizing,
  set_meta, add_comment, set_comments, set_tags, reorder, reparent, checked_geometry, prune,
  targets, same_text, live_anchors,
}
use shape_ai.Kernel.Split.{
  Plan, has, apply_split, children, rehome_peer, shrink_source, check_new_ids, order_keys,
  peeled_contours,
}
use shape_ai.Kernel.Merge.{apply_merge, merge_into, check_ids, shift_anchors, survivor}
use shape_ai.Kernel.Apply.{
  Affine, apply_inner, apply_ops, apply_object_op, canonicalize, canonicalize_to, rehome_peers,
}
use shape_ai.Kernel.Apply.Ids.{
  UniqueIds, KeepsId, AllNew, UniqueIds-edit_first, UniqueIds-map, UniqueIds-remove_first,
  UniqueIds-filter, UniqueIds-append, any-map, any-edit_first, any-remove_first,
}
use shape_ai.Kernel.Apply.Unique.Handlers.{
  Unique, Unique-bind, Unique-edit_object, Unique-checked, Unique-insert, Unique-delete,
  Unique-set_text, Unique-set_anchor,
}
use shape_ai.Kernel.Apply.Unique.Parts.{Distinct, Unique-split, Unique-merge}

module _ (affine : Affine) (scene : ObjectScene) (u : UniqueIds scene.objects) where
  rehome_peers_keeps :
      (id : ObjectId) (old new : Transform3x3) → KeepsId (rehome_peers affine id old new)
  unfolding rehome_peers
  rehome_peers_keeps id old new o = elim (Bool-cases (o.id == id)) [ inl e ↦ rw e | inr e ↦ rw e ]

  Unique-canonicalize_to :
      (id : ObjectId) (o : Object) (r : Option (Transform3x3 × Geometry))
      → Unique (canonicalize_to affine scene id o r)
  Unique-canonicalize_to id o none = u
  Unique-canonicalize_to id o (some (t, g)) = Unique-bind (checked_geometry g) _ λ parsed _.
      UniqueIds-map (rehome_peers affine id o.transform t) (rehome_peers_keeps id o.transform t) _
        (UniqueIds-edit_first (has_id id) _ (λ p. refl) scene.objects u)

  Unique-canonicalize : (id : ObjectId) → Unique (canonicalize affine scene id)
  unfolding canonicalize
  Unique-canonicalize id = Unique-bind (index_of scene id) _ λ o _. Unique-canonicalize_to id o _

-- Every split in the operation lists each new id once.
unfoldable mutual
  pub SplitsDistinct : ObjectOp → Type 0
  SplitsDistinct (Op.split _ new_ids _) = Distinct new_ids
  SplitsDistinct (Op.batch ops) = AllSplitDistinct ops
  SplitsDistinct _ = Unit

  pub AllSplitDistinct : Ops → Type 0
  AllSplitDistinct nil = Unit
  AllSplitDistinct (cons op ops) = SplitsDistinct op × AllSplitDistinct ops

module _ (affine : Affine) where
  mutual
    unfolding apply_inner apply_ops edit_geometry set_transform set_style set_layout set_clip
        set_sizing set_meta add_comment set_comments set_tags reorder reparent SplitsDistinct
        AllSplitDistinct

    Unique-inner :
        (op : ObjectOp) (scene : ObjectScene)
        → SplitsDistinct op
        → UniqueIds scene.objects
        → Unique (apply_inner affine scene op)
    Unique-inner (Op.insert_object object) scene d u = Unique-insert scene u object
    Unique-inner (Op.delete id) scene d u = Unique-delete scene u id
    Unique-inner (Op.edit_geometry id g) scene d u =
        Unique-checked scene u (checked_geometry g) id _ _ (λ a o. refl)
    Unique-inner (Op.set_transform id _) scene d u = Unique-edit_object scene u id _ _ (λ o. refl)
    Unique-inner (Op.set_style id _ _) scene d u = Unique-edit_object scene u id _ _ (λ o. refl)
    Unique-inner (Op.set_text id text) scene d u = Unique-set_text scene u id text
    Unique-inner (Op.set_anchor id anchors) scene d u = Unique-set_anchor scene u id anchors
    Unique-inner (Op.set_layout id l) scene d u = Unique-checked scene u _ id _ _ (λ a o. refl)
    Unique-inner (Op.set_clip id _) scene d u = Unique-edit_object scene u id _ _ (λ o. refl)
    Unique-inner (Op.set_sizing id s) scene d u = Unique-checked scene u _ id _ _ (λ a o. refl)
    Unique-inner (Op.set_meta id _ _ _) scene d u = Unique-edit_object scene u id _ _ (λ o. refl)
    Unique-inner (Op.canonicalize id) scene d u = Unique-canonicalize affine scene u id
    Unique-inner (Op.add_comment id _) scene d u = Unique-edit_object scene u id _ _ (λ o. refl)
    Unique-inner (Op.set_comments id _) scene d u = Unique-edit_object scene u id _ _ (λ o. refl)
    Unique-inner (Op.set_tags id _) scene d u = Unique-edit_object scene u id _ _ (λ o. refl)
    Unique-inner (Op.reorder id _) scene d u = Unique-edit_object scene u id _ _ (λ o. refl)
    Unique-inner (Op.reparent id _ _) scene d u = Unique-checked scene u _ id _ _ (λ a o. refl)
    Unique-inner (Op.split id new_ids contours) scene d u =
        Unique-split scene u id new_ids contours d
    Unique-inner (Op.merge ids into) scene d u = Unique-merge scene u ids into
    Unique-inner (Op.batch ops) scene d u = Unique-ops ops scene [] d u

    Unique-ops :
        (ops : Ops) (scene : ObjectScene) (inverses : List ObjectOp)
        → AllSplitDistinct ops
        → UniqueIds scene.objects
        → Unique (apply_ops affine scene ops inverses)
    Unique-ops nil scene inverses d u = u
    Unique-ops (cons op ops) scene inverses d u =
        Unique-bind (apply_inner affine scene op) _ (λ p ran.
          Unique-ops ops p.0 (p.1 ∷ inverses) d.1 (rw ran at (Unique-inner op scene d.0 u)))

  -- With object ids that are unique, and each split naming each of its new ids once, an operation
  -- that goes through leaves a scene with unique ids.
  pub apply_object_op-UniqueIds :
      (op : ObjectOp) (scene s' : ObjectScene) (inv : ObjectOp)
      → SplitsDistinct op
      → UniqueIds scene.objects
      → apply_object_op affine scene op ≡ ok (s', inv)
      → UniqueIds s'.objects
  unfolding apply_object_op
  apply_object_op-UniqueIds op scene s' inv d u e =
      let (p, ran, done) = >>=-eq-ok (apply_inner affine scene op) _ e in
      let same : record p.0 { scene_version = p.0.scene_version +ℤ pos 1 } ≡ s' = cc done in
      rw (← same) (rw ran at (Unique-inner op scene d u))
