-- ===== src/Kernel/Apply/Local.antt =====
-- Operations that change no objects but those they name.
use shape_ai.Common.{
  ◌≡◌, ◌≢◌, refl, sym, ◌∙◌, ap, List, [], ◌∷◌, ◌++◌, Bool, true, false, Option, none, some, arith,
  any, find, Bool-cases, inl, inr, ◌==◌, eq_refl,
}
use shape_ai.Common.Str.{str_key}
use shape_ai.Common.Result.{ok, >>=-eq-ok, fail_if}
use shape_ai.Kernel.Model.{ObjectId, Object, ObjectScene, get_object, Anchor, Text}
use shape_ai.Kernel.Op
use shape_ai.Kernel.Op.{
  ObjectOp, Ops, ops_of, nil, cons, is_empty_batch, target_ids, target_ids_of, with_parent,
}
use shape_ai.Kernel.Edit.{
  Applied, index_of, has_id, edited, edit_object, insert_object, checked_geometry, edit_geometry,
  set_transform, set_style, set_text, same_text, set_anchor, set_anchor_at, set_layout, layout_ok,
  set_clip, set_sizing, sizing_ok, set_meta, add_comment, set_comments, set_tags, reorder, reparent,
  cycle_under, cycle, is_there, duplicate_id, no_change,
}
use shape_ai.Kernel.Apply.{Affine, apply_inner, apply_ops}
use shape_ai.Kernel.Apply.Ids.{KeepsId}
use shape_ai.Kernel.Apply.Forest.{find_elsewhere}
use shape_ai.Kernel.Apply.Ends.{Ends, settles, after, either}

-- All operations but deletes, splits, merges and turns, which also move the anchors of peers.
unfoldable mutual
  pub IsLocalOp : ObjectOp → Type 0
  IsLocalOp (Op.delete _) = ⊥
  IsLocalOp (Op.split _ _ _) = ⊥
  IsLocalOp (Op.merge _ _) = ⊥
  IsLocalOp (Op.canonicalize _) = ⊥
  IsLocalOp (Op.batch ops) = AreLocalOps ops
  IsLocalOp _ = Unit

  pub AreLocalOps : Ops → Type 0
  AreLocalOps nil = Unit
  AreLocalOps (cons op ops) = IsLocalOp op × AreLocalOps ops

abbrev pub listed_id : List ObjectId → ObjectId → Bool
listed_id ids j = any (λ i. i == j) ids

-- Objects elsewhere are as they were, and all are when the inverse is empty.
pub record Local (ids : List ObjectId) (scene s : ObjectScene) (inverse : ObjectOp) : Type 0 where
  pub elsewhere : (j : ObjectId) → listed_id ids j ≡ false → get_object s j ≡ get_object scene j
  pub silent : is_empty_batch inverse ≡ true → (j : ObjectId) → get_object s j ≡ get_object scene j

abbrev Stays : List ObjectId → ObjectScene → Applied → Type 0
Stays ids scene r = Ends (Local ids scene) r

same :
    (ids : List ObjectId) (scene : ObjectScene) (inverse : ObjectOp)
    → Stays ids scene (ok (scene, inverse))
same ids scene inverse =
    settles scene inverse (record { elsewhere = λ j h. refl; silent = λ e j. refl })

apart : (id j : ObjectId) (ids : List ObjectId) → listed_id (id ∷ ids) j ≡ false → j ≢ id
apart id j ids h e =
    cc (eq_refl id, ap (λ k. id == k) e, (let k : (id == j) ≡ false = ground arith in k))

edited_local :
    (scene : ObjectScene) (id : ObjectId) (ids : List ObjectId) (f : Object → Object)
    (inverse : ObjectOp)
    → KeepsId f
    → is_empty_batch inverse ≡ false
    → Stays (id ∷ ids) scene (ok (edited scene id f, inverse))
edited_local scene id ids f inverse keeps loud = settles (edited scene id f) inverse (record {
  elsewhere = λ j h. sym (find_elsewhere id j f scene.objects keeps (apart id j ids h));
  silent = λ e j. cc (e, loud);
})

-- An edit of an object that is listed.
edit_local :
    (scene : ObjectScene) (id : ObjectId) (ids : List ObjectId) (f : Object → Object)
    (inverse : Object → ObjectOp)
    → KeepsId f
    → ((o : Object) → is_empty_batch (inverse o) ≡ false)
    → Stays (id ∷ ids) scene (edit_object scene id f inverse)
unfolding edit_object
edit_local scene id ids f inverse keeps loud =
    after (index_of scene id) _ (λ o. edited_local scene id ids f (inverse o) keeps (loud o))

text_local :
    (scene : ObjectScene) (id : ObjectId) (text : Option Text)
    → Stays (id ∷ []) scene (set_text scene id text)
unfolding set_text is_empty_batch
text_local scene id text = after (index_of scene id) _ (λ o.
    either (same_text o.text text) _ _ (same (id ∷ []) scene no_change) (
      edited_local scene id [] (λ p. record p { text = text }) (Op.set_text id o.text) (λ p. refl)
        refl))

anchor_local :
    (scene : ObjectScene) (id : ObjectId) (anchors : List Anchor) (found : Option Object)
    → Stays (id ∷ []) scene (set_anchor_at scene id anchors found)
unfolding is_empty_batch
anchor_local scene id anchors none = same (id ∷ []) scene no_change
anchor_local scene id anchors (some o) =
    edited_local scene id [] _ (Op.set_anchor id o.anchors) (λ p. refl) refl

find_appended :
    (l : List Object) (o : Object) (j : ObjectId)
    → (o.id == j) ≡ false
    → find (has_id j) (l ++ o ∷ []) ≡ find (has_id j) l
find_appended [] o j h = rw h refl
find_appended (x ∷ l) o j h = elim (Bool-cases (x.id == j)) [
  | inl here ↦ rw here refl
  | inr away ↦ rw away (find_appended l o j h)
]

with_parent_first :
    (id : ObjectId) (parent : Option ObjectId) (j : ObjectId)
    → listed_id (with_parent id parent) j ≡ false
    → (id == j) ≡ false
with_parent_first id none j h = ground arith
with_parent_first id (some p) j h = ground arith

insert_local :
    (scene : ObjectScene) (o : Object)
    → Stays (with_parent o.id o.parent) scene (insert_object scene o)
unfolding insert_object is_empty_batch
insert_local scene o = after (fail_if (is_there scene o.id) (duplicate_id o.id)) _ (λ u.
    after (checked_geometry o.geometry) _ (λ g. settles _ (Op.delete o.id) (record {
      elsewhere = λ j h. find_appended scene.objects _ j (with_parent_first o.id o.parent j h);
      silent = λ e j. cc e;
    })))

listed_apart :
    (l m : List ObjectId) (j : ObjectId)
    → listed_id (l ++ m) j ≡ false
    → (listed_id l j ≡ false) × (listed_id m j ≡ false)
listed_apart [] m j h = (refl, h)
listed_apart (i ∷ l) m j h = let (a, b) = listed_apart l m j (ground arith) in (ground arith, b)

-- The objects elsewhere stay.
abbrev Elsewhere : List ObjectId → ObjectScene → ObjectScene → ObjectOp → Type 0
Elsewhere ids scene s inverse =
    (j : ObjectId) → listed_id ids j ≡ false → get_object s j ≡ get_object scene j

module _ (affine : Affine) where
  -- With an inverse in hand the batch of them is not empty.
  ops_loud :
      (scene : ObjectScene) (ops : Ops) (first : ObjectOp) (inverses : List ObjectOp)
      → Ends
          (λ s inverse. is_empty_batch inverse ≡ false)
          (apply_ops affine scene ops (first ∷ inverses))
  unfolding apply_ops is_empty_batch
  ops_loud scene nil first inverses = settles scene _ refl
  ops_loud scene (cons op ops) first inverses =
      after (apply_inner affine scene op) _ (λ p. ops_loud p.0 ops p.1 (first ∷ inverses))

  batch_local :
      (scene : ObjectScene) (ops : Ops)
      → Ends (Elsewhere (target_ids_of ops) scene) (apply_ops affine scene ops [])
      → Stays (target_ids_of ops) scene (apply_ops affine scene ops [])
  unfolding apply_ops
  batch_local scene nil there = same _ scene _
  batch_local scene (cons op ops) there = record {
    only = λ s inverse e. record {
      elsewhere = there.only s inverse e;
      silent = λ quiet j.
          let (p, first, rest) = >>=-eq-ok (apply_inner affine scene op) _ e in
          let loud = (ops_loud p.0 ops p.1 []).only s inverse rest in cc (quiet, loud);
    };
  }

  mutual
    unfolding apply_inner apply_ops edit_geometry set_transform set_style set_anchor set_layout
        set_clip set_sizing set_meta add_comment set_comments set_tags reorder reparent IsLocalOp
        AreLocalOps target_ids target_ids_of is_empty_batch

    pub op_local :
        (scene : ObjectScene) (op : ObjectOp)
        → IsLocalOp op
        → Stays (target_ids op) scene (apply_inner affine scene op)
    op_local scene (Op.insert_object object) h = insert_local scene object
    op_local scene (Op.edit_geometry id geometry) h =
        after (checked_geometry geometry) _
          (λ p. edit_local scene id [] _ _ (λ o. refl) (λ o. refl))
    op_local scene (Op.set_transform id transform) h =
        edit_local scene id [] _ _ (λ o. refl) (λ o. refl)
    op_local scene (Op.set_style id fill stroke) h =
        edit_local scene id [] _ _ (λ o. refl) (λ o. refl)
    op_local scene (Op.set_text id text) h = text_local scene id text
    op_local scene (Op.set_anchor id anchors) h =
        anchor_local scene id anchors (get_object scene id)
    op_local scene (Op.set_layout id layout) h = after (layout_ok layout) _ (λ u.
        edit_local scene id [] (λ o. record o { layout = layout }) (λ o. Op.set_layout id o.layout)
          (λ o. refl) (λ o. refl))
    op_local scene (Op.set_clip id clip) h = edit_local scene id [] _ _ (λ o. refl) (λ o. refl)
    op_local scene (Op.set_sizing id sizing) h = after (sizing_ok sizing) _ (λ u.
        edit_local scene id [] (λ o. record o { sizing = sizing }) (λ o. Op.set_sizing id o.sizing)
          (λ o. refl) (λ o. refl))
    op_local scene (Op.set_meta id name hidden locked) h =
        edit_local scene id [] _ _ (λ o. refl) (λ o. refl)
    op_local scene (Op.add_comment id comment) h =
        edit_local scene id [] _ _ (λ o. refl) (λ o. refl)
    op_local scene (Op.set_comments id comments) h =
        edit_local scene id [] _ _ (λ o. refl) (λ o. refl)
    op_local scene (Op.set_tags id tags) h = edit_local scene id [] _ _ (λ o. refl) (λ o. refl)
    op_local scene (Op.reorder id order) h = edit_local scene id [] _ _ (λ o. refl) (λ o. refl)
    op_local scene (Op.reparent id none order) h =
        after (fail_if (cycle_under scene id none) (cycle id)) _ (λ u.
          edit_local scene id [] (λ o. record o { parent = none; order = order })
            (λ o. Op.reparent id o.parent o.order) (λ o. refl) (λ o. refl))
    op_local scene (Op.reparent id (some p) order) h =
        after (fail_if (cycle_under scene id (some p)) (cycle id)) _ (λ u.
          edit_local scene id (p ∷ []) (λ o. record o { parent = some p; order = order })
            (λ o. Op.reparent id o.parent o.order) (λ o. refl) (λ o. refl))
    op_local scene (Op.canonicalize id) h = absurd h
    op_local scene (Op.delete id) h = absurd h
    op_local scene (Op.split id new_ids contours) h = absurd h
    op_local scene (Op.merge ids into) h = absurd h
    op_local scene (Op.batch ops) h = batch_local scene ops (ops_local scene ops [] h)

    ops_local :
        (scene : ObjectScene) (ops : Ops) (inverses : List ObjectOp)
        → AreLocalOps ops
        → Ends (Elsewhere (target_ids_of ops) scene) (apply_ops affine scene ops inverses)
    ops_local scene nil inverses h = settles scene _ (λ j _. refl)
    ops_local scene (cons op ops) inverses (h, hs) = record {
      only = λ s inverse e j free.
          let (p, first, rest) = >>=-eq-ok (apply_inner affine scene op) _ e in
          let (here, there) = listed_apart (target_ids op) (target_ids_of ops) j free in
          (ops_local p.0 ops (p.1 ∷ inverses) hs).only s inverse rest j there
          ∙ ((op_local scene op h).only p.0 p.1 first).elsewhere j here;
    }
