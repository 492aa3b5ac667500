-- ===== src/Kernel/Apply/Restores/Fields.antt =====
-- Edits of single fields in crates/scene-core/src/object/kernel/apply.rs and their inverses.
use shape_ai.Common.{
  ◌≡◌, refl, sym, ◌∙◌, ap, List, [], ◌∷◌, Bool, true, false, Option, none, some, ◌==◌, find,
  find-edit_first, edit_first-edit_first, Bool-cases, Option-cases, inl, inr,
}
use shape_ai.Common.Str.{Str, str_key}
use shape_ai.Common.Result.{ok, >>=-eq-ok}
use shape_ai.Kernel.Model.{ObjectId, Object, ObjectScene, Text, get_object, text_discrete}
use shape_ai.Kernel.Op
use shape_ai.Kernel.Op.{ObjectOp, Ops, FieldEdit, set, clear, ops_of, nil, cons}
use shape_ai.Kernel.Edit.{
  index_of, has_id, edited, edit_object, set_text, same_text, no_change, edit_field, inverse_field,
  edit_flag, inverse_flag,
}

index_of-ok :
    (scene : ObjectScene) (id : ObjectId) (o : Object)
    → index_of scene id ≡ ok o
    → get_object scene id ≡ some o
index_of-ok scene id o e = elim (Option-cases (get_object scene id)) [
  | inl gone ↦ cc (rw gone at e)
  | inr (x, there) ↦ let same : x ≡ o = cc (rw there at e) in rw (there, same)
]

id_of_found :
    (l : List Object) (id : ObjectId) (o : Object)
    → find (has_id id) l ≡ some o
    → (o.id == id) ≡ true
id_of_found [] id o e = cc e
id_of_found (x ∷ l) id o e = elim (Bool-cases (x.id == id)) [
  | inl here ↦ let same : x ≡ o = cc (rw here at e) in rw (← same) here
  | inr there ↦ id_of_found l id o (rw there at e)
]

edited_back :
    (scene : ObjectScene) (id : ObjectId) (f g : Object → Object) (again : Object → ObjectOp)
    (o : Object)
    → get_object scene id ≡ some o
    → (f o).id ≡ o.id
    → g (f o) ≡ o
    → edit_object (edited scene id f) id g again ≡ ok (scene, again (f o))
unfolding edit_object
edited_back scene id f g again o found keeps undone =
    let here : has_id id (f o) ≡ true =
      ap (λ (x : Str). x == id) keeps ∙ id_of_found scene.objects id o found in
    rw (
      find-edit_first (has_id id) f scene.objects o found here,
      edit_first-edit_first (has_id id) f g scene.objects o found here undone,
    )

pub found_after :
    (scene : ObjectScene) (id : ObjectId) (f : Object → Object) (o : Object)
    → get_object scene id ≡ some o
    → (f o).id ≡ o.id
    → get_object (edited scene id f) id ≡ some (f o)
found_after scene id f o found keeps =
    find-edit_first (has_id id) f scene.objects o found
      (ap (λ (x : Str). x == id) keeps ∙ id_of_found scene.objects id o found)

-- An edit that went through, and what takes it back.
pub edit_back :
    (scene s' : ObjectScene) (id : ObjectId) (f : Object → Object) (inverse : Object → ObjectOp)
    (inv : ObjectOp)
    → edit_object scene id f inverse ≡ ok (s', inv)
    → ((o : Object) → (f o).id ≡ o.id)
    → (o : Object) × (get_object scene id ≡ some o)
      × (inv ≡ inverse o)
      × (s' ≡ edited scene id f)
      × ((g : Object → Object) (again : Object → ObjectOp)
          → g (f o) ≡ o
          → edit_object s' id g again ≡ ok (scene, again (f o)))
unfolding edit_object
edit_back scene s' id f inverse inv e keeps =
    let (o, there, done) = >>=-eq-ok (index_of scene id) _ e in
    let found = index_of-ok scene id o there in
    let same : s' ≡ edited scene id f = cc done in
    (
      o,
      found,
      cc done,
      same,
      λ g again undone.
          ap (λ t. edit_object t id g again) same
          ∙ edited_back scene id f g again o found (keeps o) undone,
    )

-- The operations that write fields of one object with no check of the values, and batches of these.
unfoldable mutual
  pub IsFieldOp : ObjectOp → Type 0
  IsFieldOp (Op.set_transform _ _) = Unit
  IsFieldOp (Op.set_style _ _ _) = Unit
  IsFieldOp (Op.set_text _ _) = Unit
  IsFieldOp (Op.set_clip _ _) = Unit
  IsFieldOp (Op.set_meta _ _ _ _) = Unit
  IsFieldOp (Op.add_comment _ _) = Unit
  IsFieldOp (Op.set_comments _ _) = Unit
  IsFieldOp (Op.set_tags _ _) = Unit
  IsFieldOp (Op.reorder _ _) = Unit
  IsFieldOp (Op.batch ops) = AreFieldOps ops
  IsFieldOp _ = ⊥

  pub AreFieldOps : Ops → Type 0
  AreFieldOps nil = Unit
  AreFieldOps (cons op ops) = IsFieldOp op × AreFieldOps ops

pub field_back {ℓ} :
    {A : Type ℓ} (edit : Option (FieldEdit A)) (old : Option A)
    → edit_field (inverse_field edit old) (edit_field edit old) ≡ old
field_back none old = refl
field_back (some edit) none = refl
field_back (some edit) (some a) = refl

pub flag_back :
    (edit : Option Bool) (old : Bool) → edit_flag (inverse_flag edit old) (edit_flag edit old) ≡ old
flag_back none old = refl
flag_back (some edit) old = refl

same_text-eq : (s t : Option Text) → same_text s t ≡ true → s ≡ t
unfolding same_text
same_text-eq s t h =
    elim (text_discrete s t) as (λ d. (elim d [ yes e ↦ true | no n ↦ false ]) ≡ true → s ≡ t) [
      | yes e ↦ λ _. e
      | no n ↦ λ k. cc k
    ]
      h

same_text_refl : (s : Option Text) → same_text s s ≡ true
unfolding same_text
same_text_refl s =
    elim (text_discrete s s) as (λ d. (elim d [ yes e ↦ true | no n ↦ false ]) ≡ true) [
      | yes e ↦ refl
      | no n ↦ absurd (n refl)
    ]

same_text_sym : (s t : Option Text) → same_text s t ≡ false → same_text t s ≡ false
same_text_sym s t h = elim (Bool-cases (same_text t s)) [
  | inl e ↦ cc (h, same_text_refl s, same_text-eq t s e)
  | inr e ↦ e
]

set_text-differs :
    (scene : ObjectScene) (id : ObjectId) (text : Option Text) (o : Object)
    → get_object scene id ≡ some o
    → same_text o.text text ≡ false
    → set_text scene id text
      ≡ edit_object scene id (λ p. record p { text = text }) (λ p. Op.set_text id p.text)
unfolding set_text edit_object
set_text-differs scene id text o found differs = rw (found, differs)

pub set_text-same :
    (scene : ObjectScene) (id : ObjectId) (text : Option Text) (o : Object)
    → get_object scene id ≡ some o
    → same_text o.text text ≡ true
    → set_text scene id text ≡ ok (scene, no_change)
unfolding set_text
set_text-same scene id text o found same = rw (found, same)

pub set_text-found :
    (scene s' : ObjectScene) (id : ObjectId) (text : Option Text) (inv : ObjectOp)
    → set_text scene id text ≡ ok (s', inv)
    → (o : Object) × (get_object scene id ≡ some o)
unfolding set_text
set_text-found scene s' id text inv e =
    let (o, there, _) = >>=-eq-ok (index_of scene id) _ e in (o, index_of-ok scene id o there)

pub text_moved_back :
    (scene s' : ObjectScene) (id : ObjectId) (text : Option Text) (inv : ObjectOp) (o : Object)
    → get_object scene id ≡ some o
    → same_text o.text text ≡ false
    → set_text scene id text ≡ ok (s', inv)
    → (inv ≡ Op.set_text id o.text) × (set_text s' id o.text ≡ ok (scene, Op.set_text id text))
text_moved_back scene s' id text inv o found differs e =
    let f : Object → Object = λ p. record p { text = text } in
    let g : Object → Object = λ p. record p { text = o.text } in
    let inverse : Object → ObjectOp = λ p. Op.set_text id p.text in
    let (x, at_x, named, moved, back) =
      edit_back scene s' id f inverse inv (sym (set_text-differs scene id text o found differs) ∙ e)
        (λ p. refl) in
    let same : x ≡ o = cc (found, at_x) in
    let after : get_object s' id ≡ some (f o) =
      ap (λ t. get_object t id) moved ∙ found_after scene id f o found refl in
    (
      rw (← same) named,
      set_text-differs s' id o.text (f o) after (same_text_sym o.text text differs)
          ∙ back g inverse (rw same refl)
          ∙ ap (λ p. ok (scene, inverse (f p))) same,
    )
