-- ===== src/Kernel/Apply/Unique/Handlers.antt =====
-- Object ids under the handlers of single objects in crates/scene-core/src/object/kernel/apply.rs.
use shape_ai.Common.{
  ◌≡◌, refl, List, [], ◌∷◌, Option, remove_first, Bool-cases, inl, inr, Option-cases,
}
use shape_ai.Common.Str.{str_key}
use shape_ai.Common.Result.{Result, ok, err, ◌>>=◌}
use shape_ai.Kernel.Model.{ObjectId, Object, ObjectScene, Anchor, Text, get_object}
use shape_ai.Kernel.Op.{ObjectOp}
use shape_ai.Kernel.Edit.{
  ApplyError, Applied, has_id, index_of, is_there, edit_object, insert_object, delete, set_text,
  set_anchor, checked_geometry, prune, targets, same_text, live_anchors,
}
use shape_ai.Kernel.Apply.Ids.{
  UniqueIds, KeepsId, UniqueIds-edit_first, UniqueIds-map, UniqueIds-remove_first, UniqueIds-append,
}

-- The scene of a result, if there is one, has unique ids.
abbrev pub Unique : Applied → Type 0
Unique (ok (scene, inverse)) = UniqueIds scene.objects
Unique (err e) = Unit

-- A chain of steps, the last of which gives the scene.
pub Unique-bind {ℓ} :
    {A : Type ℓ} (m : Result ApplyError A) (f : A → Applied)
    → ((a : A) → m ≡ ok a → Unique (f a))
    → Unique (m >>= f)
Unique-bind (ok a) f h = h a refl
Unique-bind (err e) f h = tt

module _ (scene : ObjectScene) (u : UniqueIds scene.objects) where
  pub Unique-edit_object :
      (id : ObjectId) (f : Object → Object) (inverse : Object → ObjectOp)
      → KeepsId f
      → Unique (edit_object scene id f inverse)
  unfolding edit_object
  Unique-edit_object id f inverse k =
      Unique-bind (index_of scene id) _
        (λ o _. UniqueIds-edit_first (has_id id) f k scene.objects u)

  -- After a check.
  pub Unique-checked {ℓ} :
      {A : Type ℓ} (m : Result ApplyError A) (id : ObjectId) (f : A → Object → Object)
      (inverse : Object → ObjectOp)
      → ((a : A) → KeepsId (f a))
      → Unique (m >>= λ a. edit_object scene id (f a) inverse)
  Unique-checked m id f inverse k =
      Unique-bind m _ (λ a _. Unique-edit_object id (f a) inverse (k a))

  pub Unique-insert : (object : Object) → Unique (insert_object scene object)
  unfolding insert_object
  Unique-insert object = elim (Bool-cases (is_there scene object.id)) [
    | inl there ↦ rw there tt
    | inr new ↦ rw new (
        Unique-bind (checked_geometry object.geometry) _ (λ parsed _.
          UniqueIds-append scene.objects (record object { geometry = parsed } ∷ []) u (refl, tt)
            (new, tt)))
  ]

  prune_keeps : (id : ObjectId) → KeepsId (prune id)
  prune_keeps id o = elim (Bool-cases (targets id o)) [ inl e ↦ rw e | inr e ↦ rw e ]

  pub Unique-delete : (id : ObjectId) → Unique (delete scene id)
  unfolding delete
  Unique-delete id = Unique-bind (index_of scene id) _ (λ o _.
      UniqueIds-map (prune id) (prune_keeps id) (remove_first (has_id id) scene.objects)
        (UniqueIds-remove_first (has_id id) scene.objects u))

  pub Unique-set_text : (id : ObjectId) (text : Option Text) → Unique (set_text scene id text)
  unfolding set_text
  Unique-set_text id text = Unique-bind (index_of scene id) _ (λ o _.
      elim (Bool-cases (same_text o.text text)) [
        | inl e ↦ rw e u
        | inr e ↦ rw e (
            UniqueIds-edit_first (has_id id) (λ p. record p { text = text }) (λ p. refl)
              scene.objects u)
      ])

  pub Unique-set_anchor :
      (id : ObjectId) (anchors : List Anchor) → Unique (set_anchor scene id anchors)
  unfolding set_anchor
  Unique-set_anchor id anchors = elim (Option-cases (get_object scene id)) [
    | inl e ↦ rw e u
    | inr (o, e) ↦ rw e (
        UniqueIds-edit_first (has_id id) (λ p. record p { anchors = live_anchors scene anchors })
          (λ p. refl) scene.objects u)
  ]
