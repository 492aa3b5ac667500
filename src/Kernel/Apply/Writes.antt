-- ===== src/Kernel/Apply/Writes.antt =====
-- crates/scene-core/src/object/kernel/apply.rs: what the operations that write properties of one
-- object leave of the objects, against the properties that `touched_properties` lists for the gate.
use shape_ai.Common.{
  ◌≡◌, ◌≢◌, refl, sym, ap, List, [], ◌∷◌, ◌++◌, map, Bool, true, false, ◌&&◌, ◌||◌, Option, none,
  some, if◌then◌else◌, ◌==◌, eq_iff, Bool-cases, inl, inr, edit_first,
}
use shape_ai.Common.Str.{Str, bytes, str_key}
use shape_ai.Kernel.Model.{
  ObjectId, Object, ObjectScene, Text, Anchor, Fill, Stroke, even_odd, identity, get_object,
}
use shape_ai.Kernel.Op
use shape_ai.Kernel.Op.{ObjectOp, FieldEdit}
use shape_ai.Kernel.Edit.{
  Applied, has_id, layout_ok, sizing_ok, cycle_under, cycle, no_change, index_of, edit_object,
  edit_field, edit_flag, edit_geometry, set_transform, set_style, set_text, same_text, set_anchor,
  set_anchor_at, set_layout, set_clip, set_sizing, set_meta, add_comment, set_comments, set_tags,
  reorder, reparent, checked_geometry,
}
use shape_ai.Common.Result.{fail_if}
use shape_ai.Kernel.Apply.Ends.{Ends, settles, after, either}
use shape_ai.Kernel.Apply.{Affine, touched_properties, apply_inner}

-- A property is one of those listed.
abbrev pub names : List (ObjectId × Str) → Str → Str → Bool
names [] o p = false
names ((id, property) ∷ props) o p = (id == o && property == p) || names props o p

-- An edit of a style or of metadata that is given at all.
abbrev Given {ℓ} : {A : Type ℓ} → Option A → Type 0 → Type 0
Given none rest = rest
Given (some edit) rest = Unit

-- The operations that write properties of one object: none of those that insert, delete, split, merge
-- or canonicalize objects, and no batch.
unfoldable pub WritesProperty : ObjectOp → Type 0
WritesProperty (Op.set_style _ fill stroke) = Given fill (Given stroke ⊥)
WritesProperty (Op.set_meta _ name hidden locked) = Given name (Given hidden (Given locked ⊥))
WritesProperty (Op.insert_object _) = ⊥
WritesProperty (Op.delete _) = ⊥
WritesProperty (Op.split _ _ _) = ⊥
WritesProperty (Op.merge _ _) = ⊥
WritesProperty (Op.canonicalize _) = ⊥
WritesProperty (Op.batch _) = ⊥
WritesProperty _ = Unit

-- An object with the named fields blanked out.
unfoldable pub blanked : (Str → Bool) → Object → Object
blanked named o = record o {
  geometry =
      if named (bytes "geometry")
      then record { path_string = []; fill_rule = even_odd; subpaths = [] }
      else o.geometry;
  transform = if named (bytes "transform") then identity else o.transform;
  fill = if named (bytes "fill") then none else o.fill;
  stroke = if named (bytes "stroke") then none else o.stroke;
  text = if named (bytes "text") then none else o.text;
  anchors = if named (bytes "anchors") then [] else o.anchors;
  layout = if named (bytes "layout") then none else o.layout;
  clip = if named (bytes "clip") then none else o.clip;
  sizing = if named (bytes "sizing") then none else o.sizing;
  name = if named (bytes "name") then none else o.name;
  hidden = if named (bytes "hidden") then false else o.hidden;
  locked = if named (bytes "locked") then false else o.locked;
  comments = if named (bytes "comments") then [] else o.comments;
  tags = if named (bytes "tags") then [] else o.tags;
  parent = if named (bytes "parent") then none else o.parent;
  order = if named (bytes "order") then [] else o.order;
}

-- What an operation leaves of an object: all but the properties that are listed for it.
abbrev pub unwritten : List (ObjectId × Str) → Object → Object
unwritten props o = blanked (names props o.id) o

abbrev pub Untouched : List (ObjectId × Str) → ObjectScene → ObjectScene → Type 0
Untouched props scene s = map (unwritten props) s.objects ≡ map (unwritten props) scene.objects

abbrev Keeps : List (ObjectId × Str) → ObjectScene → Applied → Type 0
Keeps props scene r = Ends (λ s inverse. Untouched props scene s) r

map-edit_first :
    (g : Object → Object) (p : Object → Bool) (f : Object → Object) (l : List Object)
    → ((o : Object) → p o ≡ true → g (f o) ≡ g o)
    → map g (edit_first p f l) ≡ map g l
unfolding edit_first
map-edit_first g p f [] h = refl
map-edit_first g p f (x ∷ l) h = elim (Bool-cases (p x)) [
  | inl here ↦ rw here (ap (λ t. t ∷ map g l) (h x here))
  | inr there ↦ rw there (ap (λ t. g x ∷ t) (map-edit_first g p f l h))
]

-- The edit of an object with the id stays in the listed properties.
abbrev Within : List (ObjectId × Str) → ObjectId → (Object → Object) → Type 0
Within props id f = (o : Object) → (id == o.id) ≡ true → unwritten props (f o) ≡ unwritten props o

edited_keeps :
    (props : List (ObjectId × Str)) (scene : ObjectScene) (id : ObjectId) (f : Object → Object)
    → Within props id f
    → map (unwritten props) (edit_first (has_id id) f scene.objects)
      ≡ map (unwritten props) scene.objects
edited_keeps props scene id f h =
    map-edit_first (unwritten props) (has_id id) f scene.objects
      (λ o here. h o ((eq_iff id o.id).1 (sym ((eq_iff o.id id).0 here))))

edit_lem :
    (props : List (ObjectId × Str)) (scene : ObjectScene) (id : ObjectId) (f : Object → Object)
    (inverse : Object → ObjectOp)
    → Within props id f
    → Keeps props scene (edit_object scene id f inverse)
unfolding edit_object
edit_lem props scene id f inverse h =
    after (index_of scene id) _ (λ o. settles _ _ (edited_keeps props scene id f h))

text_lem :
    (props : List (ObjectId × Str)) (scene : ObjectScene) (id : ObjectId) (text : Option Text)
    → Within props id (λ o. record o { text = text })
    → Keeps props scene (set_text scene id text)
unfolding set_text
text_lem props scene id text h = after (index_of scene id) _ (λ o.
    either (same_text o.text text) _ _ (settles scene no_change refl)
      (settles _ _ (edited_keeps props scene id _ h)))

anchor_lem :
    (props : List (ObjectId × Str)) (scene : ObjectScene) (id : ObjectId) (anchors : List Anchor)
    (found : Option Object)
    → ((l : List Anchor) → Within props id (λ o. record o { anchors = l }))
    → Keeps props scene (set_anchor_at scene id anchors found)
anchor_lem props scene id anchors none h = settles scene no_change refl
anchor_lem props scene id anchors (some o) h = settles _ _ (edited_keeps props scene id _ (h _))

meta_within :
    (id : ObjectId) (name : Option (FieldEdit Str)) (hidden locked : Option Bool) (o : Object)
    → (id == o.id) ≡ true
    → unwritten (touched_properties (Op.set_meta id name hidden locked)) (record o {
      name = edit_field name o.name;
      hidden = edit_flag hidden o.hidden;
      locked = edit_flag locked o.locked;
    })
      ≡ unwritten (touched_properties (Op.set_meta id name hidden locked)) o
unfolding touched_properties blanked
meta_within id none none none o here = refl
meta_within id (some n) none none o here = rw here refl
meta_within id none (some h) none o here = rw here refl
meta_within id (some n) (some h) none o here = rw here refl
meta_within id none none (some l) o here = rw here refl
meta_within id (some n) none (some l) o here = rw here refl
meta_within id none (some h) (some l) o here = rw here refl
meta_within id (some n) (some h) (some l) o here = rw here refl

style_within :
    (id : ObjectId) (fill : Option (FieldEdit Fill)) (stroke : Option (FieldEdit Stroke))
    (o : Object)
    → (id == o.id) ≡ true
    → unwritten
        (touched_properties (Op.set_style id fill stroke))
        (record o { fill = edit_field fill o.fill; stroke = edit_field stroke o.stroke })
      ≡ unwritten (touched_properties (Op.set_style id fill stroke)) o
unfolding touched_properties blanked
style_within id none none o here = refl
style_within id (some f) none o here = rw here refl
style_within id none (some s) o here = rw here refl
style_within id (some f) (some s) o here = rw here refl

module _ (affine : Affine) where
  -- An operation that writes properties of one object changes these fields of the object at most, and
  -- no other object.
  pub inner-Keeps :
      (op : ObjectOp) (scene : ObjectScene)
      → WritesProperty op
      → Keeps (touched_properties op) scene (apply_inner affine scene op)
  unfolding WritesProperty touched_properties blanked apply_inner edit_geometry set_transform
      set_layout set_style set_anchor set_clip set_sizing set_meta add_comment set_comments set_tags
      reorder reparent
  inner-Keeps (Op.edit_geometry id geometry) scene w = after (checked_geometry geometry) _ (λ p.
      edit_lem ((id, bytes "geometry") ∷ []) scene id (λ o. record o { geometry = p }) _
        (λ o here. rw here refl))
  inner-Keeps (Op.set_transform id transform) scene w =
      edit_lem ((id, bytes "transform") ∷ []) scene id (λ o. record o { transform = transform }) _
        (λ o here. rw here refl)
  inner-Keeps (Op.set_style id fill stroke) scene w =
      edit_lem _ scene id _ _ (style_within id fill stroke)
  inner-Keeps (Op.set_text id text) scene w =
      text_lem ((id, bytes "text") ∷ []) scene id text (λ o here. rw here refl)
  inner-Keeps (Op.set_anchor id anchors) scene w =
      anchor_lem ((id, bytes "anchors") ∷ []) scene id anchors (get_object scene id)
        (λ l o here. rw here refl)
  inner-Keeps (Op.set_layout id layout) scene w = after (layout_ok layout) _ (λ u.
      edit_lem ((id, bytes "layout") ∷ []) scene id (λ o. record o { layout = layout }) _
        (λ o here. rw here refl))
  inner-Keeps (Op.set_clip id clip) scene w =
      edit_lem ((id, bytes "clip") ∷ []) scene id (λ o. record o { clip = clip }) _
        (λ o here. rw here refl)
  inner-Keeps (Op.set_sizing id sizing) scene w = after (sizing_ok sizing) _ (λ u.
      edit_lem ((id, bytes "sizing") ∷ []) scene id (λ o. record o { sizing = sizing }) _
        (λ o here. rw here refl))
  inner-Keeps (Op.set_meta id name hidden locked) scene w =
      edit_lem _ scene id _ _ (meta_within id name hidden locked)
  inner-Keeps (Op.add_comment id comment) scene w =
      edit_lem ((id, bytes "comments") ∷ []) scene id
        (λ o. record o { comments = o.comments ++ comment ∷ [] }) _ (λ o here. rw here refl)
  inner-Keeps (Op.set_comments id comments) scene w =
      edit_lem ((id, bytes "comments") ∷ []) scene id (λ o. record o { comments = comments }) _
        (λ o here. rw here refl)
  inner-Keeps (Op.set_tags id tags) scene w =
      edit_lem ((id, bytes "tags") ∷ []) scene id (λ o. record o { tags = tags }) _
        (λ o here. rw here refl)
  inner-Keeps (Op.reorder id order) scene w =
      edit_lem ((id, bytes "order") ∷ []) scene id (λ o. record o { order = order }) _
        (λ o here. rw here refl)
  inner-Keeps (Op.reparent id parent order) scene w =
      after (fail_if (cycle_under scene id parent) (cycle id)) _ (λ u.
        edit_lem ((id, bytes "parent") ∷ (id, bytes "order") ∷ []) scene id
          (λ o. record o { parent = parent; order = order }) _ (λ o here. rw here refl))
  inner-Keeps (Op.insert_object object) scene w = absurd w
  inner-Keeps (Op.delete id) scene w = absurd w
  inner-Keeps (Op.split id new_ids contours) scene w = absurd w
  inner-Keeps (Op.merge ids into) scene w = absurd w
  inner-Keeps (Op.canonicalize id) scene w = absurd w
  inner-Keeps (Op.batch ops) scene w = absurd w

-- Such an operation lists a property.
pub WritesProperty-touched : (op : ObjectOp) → WritesProperty op → touched_properties op ≢ []
unfolding WritesProperty touched_properties
WritesProperty-touched (Op.edit_geometry _ _) w e = cc e
WritesProperty-touched (Op.set_transform _ _) w e = cc e
WritesProperty-touched (Op.set_style _ none none) w e = absurd w
WritesProperty-touched (Op.set_style _ none (some s)) w e = cc e
WritesProperty-touched (Op.set_style _ (some f) s) w e = cc e
WritesProperty-touched (Op.set_text _ _) w e = cc e
WritesProperty-touched (Op.set_anchor _ _) w e = cc e
WritesProperty-touched (Op.set_layout _ _) w e = cc e
WritesProperty-touched (Op.set_clip _ _) w e = cc e
WritesProperty-touched (Op.set_sizing _ _) w e = cc e
WritesProperty-touched (Op.set_meta _ none none none) w e = absurd w
WritesProperty-touched (Op.set_meta _ none none (some l)) w e = cc e
WritesProperty-touched (Op.set_meta _ none (some h) l) w e = cc e
WritesProperty-touched (Op.set_meta _ (some n) h l) w e = cc e
WritesProperty-touched (Op.add_comment _ _) w e = cc e
WritesProperty-touched (Op.set_comments _ _) w e = cc e
WritesProperty-touched (Op.set_tags _ _) w e = cc e
WritesProperty-touched (Op.reparent _ _ _) w e = cc e
WritesProperty-touched (Op.reorder _ _) w e = cc e
WritesProperty-touched (Op.insert_object _) w e = absurd w
WritesProperty-touched (Op.delete _) w e = absurd w
WritesProperty-touched (Op.split _ _ _) w e = absurd w
WritesProperty-touched (Op.merge _ _) w e = absurd w
WritesProperty-touched (Op.canonicalize _) w e = absurd w
WritesProperty-touched (Op.batch _) w e = absurd w
