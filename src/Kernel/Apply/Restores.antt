-- ===== src/Kernel/Apply/Restores.antt =====
-- The inverse of an operation takes the scene back: edits of single objects and batches of them.
pub mod Fields
use shape_ai.Common.{
  ◌≡◌, refl, sym, ◌∙◌, ap, List, [], ◌∷◌, ◌++◌, Bool, true, false, Option, none, some, append_assoc,
  ◌==◌, find, find-edit_first, edit_first-edit_first, Bool-cases, Option-cases, inl, inr,
}
use shape_ai.Common.Str.{Str, str_key}
use shape_ai.Common.Result.{ok, >>=-eq-ok}
use shape_ai.Kernel.Model.{ObjectId, Object, ObjectScene, Text, get_object, text_discrete}
use shape_ai.Kernel.Op
use shape_ai.Kernel.Op.{ObjectOp, Ops, FieldEdit, set, clear, ops_of, nil, cons}
use shape_ai.Kernel.Edit.{
  index_of, has_id, edited, edit_object, set_transform, set_style, set_text, set_clip, set_meta,
  add_comment, set_comments, set_tags, reorder, same_text, no_change, edit_field, inverse_field,
  edit_flag, inverse_flag,
}
use shape_ai.Kernel.Apply.{Affine, apply_inner, apply_ops}
unfoldable pub use shape_ai.Kernel.Apply.Restores.Fields.{IsFieldOp, AreFieldOps}
use shape_ai.Kernel.Apply.Restores.Fields.{
  edit_back, field_back, flag_back, set_text-same, set_text-found, text_moved_back,
}

module _ (affine : Affine) where
  -- Some inverse is returned with the scene `scene`.
  abbrev pub Returns : ObjectScene → ObjectOp → ObjectScene → Type 0
  Returns s' inv scene = (again : ObjectOp) × (apply_inner affine s' inv ≡ ok (scene, again))

  text_back :
      (scene s' : ObjectScene) (id : ObjectId) (text : Option Text) (inv : ObjectOp)
      → set_text scene id text ≡ ok (s', inv)
      → Returns s' inv scene
  unfolding apply_inner apply_ops
  text_back scene s' id text inv e =
      let (o, found) = set_text-found scene s' id text inv e in
      elim (Bool-cases (same_text o.text text)) [
        | inl same ↦
            let done : ok (scene, no_change) ≡ ok (s', inv) =
              sym (set_text-same scene id text o found same) ∙ e in
            let unmoved : s' ≡ scene = cc done in
            let silent : inv ≡ no_change = cc done in (no_change, rw (silent, unmoved) refl)
        | inr differs ↦
            let (named, back) = text_moved_back scene s' id text inv o found differs e in
            (Op.set_text id text, rw named back)
      ]

  undone :
      (scene s' : ObjectScene) (id : ObjectId) (f : Object → Object) (inverse : Object → ObjectOp)
      (inv : ObjectOp)
      → edit_object scene id f inverse ≡ ok (s', inv)
      → ((o : Object) → (f o).id ≡ o.id)
      → ((o : Object)
          → (g : Object → Object) × (again : Object → ObjectOp) × (g (f o) ≡ o)
            × (apply_inner affine s' (inverse o) ≡ edit_object s' id g again))
      → Returns s' inv scene
  undone scene s' id f inverse inv e keeps inverted =
      let (o, found, named, moved, back) = edit_back scene s' id f inverse inv e keeps in
      let (g, again, cancels, meaning) = inverted o in
      (again (f o), ap (apply_inner affine s') named ∙ meaning ∙ back g again cancels)

  mutual
    unfolding apply_inner apply_ops set_transform set_style set_clip set_meta add_comment
        set_comments set_tags reorder IsFieldOp AreFieldOps

    op_back :
        (op : ObjectOp) (scene s' : ObjectScene) (inv : ObjectOp)
        → IsFieldOp op
        → apply_inner affine scene op ≡ ok (s', inv)
        → Returns s' inv scene
    op_back (Op.set_transform id t) scene s' inv h e =
        undone scene s' id _ _ inv e (λ o. refl)
          (λ o. (λ p. record p { transform = o.transform }, _, refl, refl))
    op_back (Op.set_style id fill stroke) scene s' inv h e =
        undone scene s' id _ _ inv e (λ o. refl)
          (λ o. (
            λ p. record p {
              fill = edit_field (inverse_field fill o.fill) p.fill;
              stroke = edit_field (inverse_field stroke o.stroke) p.stroke;
            },
            _,
            rw (field_back fill o.fill, field_back stroke o.stroke),
            refl,
          ))
    op_back (Op.set_text id text) scene s' inv h e = text_back scene s' id text inv e
    op_back (Op.set_clip id clip) scene s' inv h e =
        undone scene s' id _ _ inv e (λ o. refl)
          (λ o. (λ p. record p { clip = o.clip }, _, refl, refl))
    op_back (Op.set_meta id name hidden locked) scene s' inv h e =
        undone scene s' id _ _ inv e (λ o. refl)
          (λ o. (
            λ p. record p {
              name = edit_field (inverse_field name o.name) p.name;
              hidden = edit_flag (inverse_flag hidden o.hidden) p.hidden;
              locked = edit_flag (inverse_flag locked o.locked) p.locked;
            },
            _,
            rw (field_back name o.name, flag_back hidden o.hidden, flag_back locked o.locked),
            refl,
          ))
    op_back (Op.add_comment id comment) scene s' inv h e =
        undone scene s' id _ _ inv e (λ o. refl)
          (λ o. (λ p. record p { comments = o.comments }, _, refl, refl))
    op_back (Op.set_comments id comments) scene s' inv h e =
        undone scene s' id _ _ inv e (λ o. refl)
          (λ o. (λ p. record p { comments = o.comments }, _, refl, refl))
    op_back (Op.set_tags id tags) scene s' inv h e =
        undone scene s' id _ _ inv e (λ o. refl)
          (λ o. (λ p. record p { tags = o.tags }, _, refl, refl))
    op_back (Op.reorder id order) scene s' inv h e =
        undone scene s' id _ _ inv e (λ o. refl)
          (λ o. (λ p. record p { order = o.order }, _, refl, refl))
    op_back (Op.batch ops) scene s' inv h e =
        let (l, named, back) = ops_back ops scene s' [] inv h e in
        let (acc, run) = back [] [] in
        (Op.batch (ops_of acc), ap (apply_inner affine s') named ∙ run)
    op_back (Op.insert_object _) scene s' inv h e = absurd h
    op_back (Op.edit_geometry _ _) scene s' inv h e = absurd h
    op_back (Op.set_anchor _ _) scene s' inv h e = absurd h
    op_back (Op.set_layout _ _) scene s' inv h e = absurd h
    op_back (Op.set_sizing _ _) scene s' inv h e = absurd h
    op_back (Op.canonicalize _) scene s' inv h e = absurd h
    op_back (Op.reparent _ _ _) scene s' inv h e = absurd h
    op_back (Op.delete _) scene s' inv h e = absurd h
    op_back (Op.split _ _ _) scene s' inv h e = absurd h
    op_back (Op.merge _ _) scene s' inv h e = absurd h

    ops_back :
        (ops : Ops) (scene s' : ObjectScene) (inverses : List ObjectOp) (inv : ObjectOp)
        → AreFieldOps ops
        → apply_ops affine scene ops inverses ≡ ok (s', inv)
        → (l : List ObjectOp) × (inv ≡ Op.batch (ops_of (l ++ inverses)))
          × ((rest acc : List ObjectOp)
              → (acc' : List ObjectOp) × (apply_ops affine s' (ops_of (l ++ rest)) acc
                  ≡ apply_ops affine scene (ops_of rest) acc'))
    ops_back nil scene s' inverses inv h e =
        let unmoved : s' ≡ scene = cc e in
        ([], cc e, λ rest acc. (acc, ap (λ t. apply_ops affine t (ops_of rest) acc) unmoved))
    ops_back (cons op ops) scene s' inverses inv h e =
        let (p, ran, rest_ran) = >>=-eq-ok (apply_inner affine scene op) _ e in
        let (l, named, back) = ops_back ops p.0 s' (p.1 ∷ inverses) inv h.1 rest_ran in
        let (again, undo) = op_back op scene p.0 p.1 h.0 ran in
        (
          l ++ p.1 ∷ [],
          named ∙ ap (λ t. Op.batch (ops_of t)) (sym (append_assoc l (p.1 ∷ []) inverses)),
          λ rest acc.
              let (acc', run) = back (p.1 ∷ rest) acc in
              (
                again ∷ acc',
                ap (λ t. apply_ops affine s' (ops_of t) acc) (append_assoc l (p.1 ∷ []) rest)
                    ∙ run
                    ∙ rw undo refl,
              ),
        )

  -- Undo is exact: after an operation that writes fields of one object without a check of the values,
  -- or a batch of such, the inverse that was returned is applied without an error and gives back the
  -- scene as it was before.
  pub inverse_restores :
      (op : ObjectOp) (scene s' : ObjectScene) (inv : ObjectOp)
      → IsFieldOp op
      → apply_inner affine scene op ≡ ok (s', inv)
      → (again : ObjectOp) × (apply_inner affine s' inv ≡ ok (scene, again))
  inverse_restores op scene s' inv h e = op_back op scene s' inv h e
