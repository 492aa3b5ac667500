-- ===== src/Kernel/Apply/Rest.antt =====
-- What an application leaves of a scene besides its objects.
use shape_ai.Common.{
  ◌≡◌, refl, sym, ◌∙◌, ap, List, [], ◌∷◌, Option, none, some, is_empty, not, length, nat_eq,
}
use shape_ai.Common.Int.{ℤ, pos, ◌+ℤ◌}
use shape_ai.Common.Result.{ok, >>=-eq-ok, fail_if}
use shape_ai.Kernel.Model.{
  ObjectId, Object, ObjectScene, Transform3x3, Geometry, get_object, Anchor, Text,
}
use shape_ai.Kernel.Op
use shape_ai.Kernel.Op.{ObjectOp, Ops, nil, cons}
use shape_ai.Kernel.Edit.{
  Applied, layout_ok, sizing_ok, cycle_under, is_there, bad_geometry, no_contours, id_count,
  duplicate_id, cycle, no_change, index_of, edit_object, insert_object, delete, edit_geometry,
  set_transform, set_style, set_text, same_text, set_anchor, set_anchor_at, set_layout, set_clip,
  set_sizing, set_meta, add_comment, set_comments, set_tags, reorder, reparent, checked_geometry,
}
use shape_ai.Kernel.Split.{has, apply_split, peeled_contours, check_new_ids, order_keys}
use shape_ai.Kernel.Merge.{check_ids, apply_merge, merge_into, survivor}
use shape_ai.Kernel.Apply.Ends.{Ends, settles, after, either, fails}
use shape_ai.Kernel.Apply.{
  Affine, canonicalize_to, canonicalize, apply_inner, apply_ops, apply_object_op,
}

-- A scene with other objects only.
abbrev pub OnlyObjects : ObjectScene → ObjectScene → Type 0
OnlyObjects scene s = s ≡ record scene { objects = s.objects }

abbrev Leaves : ObjectScene → Applied → Type 0
Leaves scene r = Ends (λ s inverse. OnlyObjects scene s) r

done :
    (scene : ObjectScene) (l : List Object) (inverse : ObjectOp)
    → Leaves scene (ok (record scene { objects = l }, inverse))
done scene l inverse = settles (record scene { objects = l }) inverse refl

edit_lem :
    (scene : ObjectScene) (id : ObjectId) (f : Object → Object) (inverse : Object → ObjectOp)
    → Leaves scene (edit_object scene id f inverse)
unfolding edit_object
edit_lem scene id f inverse = after (index_of scene id) _ (λ o. done scene _ _)

text_lem :
    (scene : ObjectScene) (id : ObjectId) (text : Option Text)
    → Leaves scene (set_text scene id text)
unfolding set_text
text_lem scene id text =
    after (index_of scene id) _ (λ o.
      either (same_text o.text text) _ _ (done scene scene.objects no_change) (done scene _ _))

anchor_lem :
    (scene : ObjectScene) (id : ObjectId) (anchors : List Anchor) (found : Option Object)
    → Leaves scene (set_anchor_at scene id anchors found)
anchor_lem scene id anchors none = done scene scene.objects no_change
anchor_lem scene id anchors (some o) = done scene _ _

merge_lem :
    (scene : ObjectScene) (ids : List ObjectId) (into : Option ObjectId)
    → Leaves scene (apply_merge scene ids into)
unfolding apply_merge merge_into
merge_lem scene [] into = fails _
merge_lem scene (first ∷ ids) into =
    either (has (first ∷ ids) (survivor into first)) _ _
      (after (check_ids scene [] (first ∷ ids)) _
        (λ u. after (index_of scene (survivor into first)) _ (λ s. done scene _ _)))
      (fails _)

split_lem :
    (scene : ObjectScene) (id : ObjectId) (new_ids : List ObjectId) (contours : List ℤ)
    → Leaves scene (apply_split scene id new_ids contours)
unfolding apply_split
split_lem scene id new_ids contours = after (index_of scene id) _ (λ original.
    let n_sub = length original.geometry.subpaths in
    after (peeled_contours n_sub contours) _ (λ peel.
      after (fail_if (is_empty peel) (bad_geometry no_contours)) _ (λ u.
        let short = bad_geometry (id_count (length new_ids) (length peel)) in
        after (fail_if (not (nat_eq (length new_ids) (length peel))) short) _ (λ v.
          after (check_new_ids scene id new_ids) _
            (λ w. after (order_keys (length peel) original.order) _ (λ keys. done scene _ _))))))

module _ (affine : Affine) where
  canonical_lem :
      (scene : ObjectScene) (id : ObjectId) (o : Object) (turned : Option (Transform3x3 × Geometry))
      → Leaves scene (canonicalize_to affine scene id o turned)
  canonical_lem scene id o none = done scene scene.objects no_change
  canonical_lem scene id o (some (t, g)) = after (checked_geometry g) _ (λ parsed. done scene _ _)

  mutual
    unfolding apply_inner insert_object delete edit_geometry set_transform set_style set_anchor
        set_layout set_clip set_sizing set_meta canonicalize add_comment set_comments set_tags
        reorder reparent apply_ops

    inner-Leaves :
        (scene : ObjectScene) (op : ObjectOp) → Leaves scene (apply_inner affine scene op)
    inner-Leaves scene (Op.insert_object object) =
        after (fail_if (is_there scene object.id) (duplicate_id object.id)) _
          (λ u. after (checked_geometry object.geometry) _ (λ p. done scene _ _))
    inner-Leaves scene (Op.delete id) = after (index_of scene id) _ (λ o. done scene _ _)
    inner-Leaves scene (Op.edit_geometry id geometry) =
        after (checked_geometry geometry) _ (λ p. edit_lem scene id _ _)
    inner-Leaves scene (Op.set_transform id transform) = edit_lem scene id _ _
    inner-Leaves scene (Op.set_style id fill stroke) = edit_lem scene id _ _
    inner-Leaves scene (Op.set_text id text) = text_lem scene id text
    inner-Leaves scene (Op.set_anchor id anchors) =
        anchor_lem scene id anchors (get_object scene id)
    inner-Leaves scene (Op.set_layout id layout) =
        after (layout_ok layout) _ (λ u. edit_lem scene id _ _)
    inner-Leaves scene (Op.set_clip id clip) = edit_lem scene id _ _
    inner-Leaves scene (Op.set_sizing id sizing) =
        after (sizing_ok sizing) _ (λ u. edit_lem scene id _ _)
    inner-Leaves scene (Op.set_meta id name hidden locked) = edit_lem scene id _ _
    inner-Leaves scene (Op.canonicalize id) =
        after (index_of scene id) _ (λ o. canonical_lem scene id o _)
    inner-Leaves scene (Op.add_comment id comment) = edit_lem scene id _ _
    inner-Leaves scene (Op.set_comments id comments) = edit_lem scene id _ _
    inner-Leaves scene (Op.set_tags id tags) = edit_lem scene id _ _
    inner-Leaves scene (Op.reorder id order) = edit_lem scene id _ _
    inner-Leaves scene (Op.reparent id parent order) =
        after (fail_if (cycle_under scene id parent) (cycle id)) _ (λ u. edit_lem scene id _ _)
    inner-Leaves scene (Op.split id new_ids contours) = split_lem scene id new_ids contours
    inner-Leaves scene (Op.merge ids into) = merge_lem scene ids into
    inner-Leaves scene (Op.batch ops) = ops_leave scene ops []

    ops_leave :
        (scene : ObjectScene) (ops : Ops) (inverses : List ObjectOp)
        → Leaves scene (apply_ops affine scene ops inverses)
    ops_leave scene nil inverses = done scene scene.objects _
    ops_leave scene (cons op ops) inverses = record {
      only = λ s i e.
          let (p, first, rest) = >>=-eq-ok (apply_inner affine scene op) _ e in
          let here = (inner-Leaves scene op).only p.0 p.1 first in
          let there = (ops_leave p.0 ops (p.1 ∷ inverses)).only s i rest in
          there ∙ ap (λ (t : ObjectScene). record t { objects = s.objects }) here;
    }

  -- An operation that is applied changes the objects of the scene and adds one to its version; the
  -- tags, the selection and the time stay.
  pub rest-apply_object_op :
      (scene s' : ObjectScene) (op inverse : ObjectOp)
      → apply_object_op affine scene op ≡ ok (s', inverse)
      → s' ≡ record scene { objects = s'.objects; scene_version = scene.scene_version +ℤ pos 1 }
  unfolding apply_object_op
  rest-apply_object_op scene s' op inverse run =
      let (p, inner, done) = >>=-eq-ok (apply_inner affine scene op) _ run in
      let objects_only = (inner-Leaves scene op).only p.0 p.1 inner in
      let step : ObjectScene → ObjectScene =
        λ t. record t { scene_version = t.scene_version +ℤ pos 1 } in
      let last : step p.0 ≡ s' = cc done in
      sym last
      ∙ ap step objects_only
      ∙ ap (λ l. record scene { objects = l; scene_version = scene.scene_version +ℤ pos 1 })
          (ap (λ (t : ObjectScene). t.objects) last)
