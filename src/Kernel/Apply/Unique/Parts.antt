-- ===== src/Kernel/Apply/Unique/Parts.antt =====
-- Object ids under split and merge in crates/scene-core/src/object/kernel/apply.rs.
use shape_ai.Common.{
  ◌≡◌, refl, ◌∙◌, List, [], ◌∷◌, ◌++◌, map, false, not, ◌||◌, Option, arith, ◌==◌, any, is_empty,
  Bool-cases, inl, inr, length, nat_eq, All,
}
use shape_ai.Common.Int.{ℤ}
use shape_ai.Common.Str.{Str, str_key}
use shape_ai.Common.Result.{ok, fail_if, fail_if-eq-ok}
use shape_ai.Kernel.Model.{ObjectId, Object, ObjectScene, SubPath}
use shape_ai.Kernel.Edit.{has_id, index_of, is_there}
use shape_ai.Kernel.Split.{
  Plan, has, apply_split, children, rehome_peer, shrink_source, check_new_ids, order_keys,
  peeled_contours,
}
use shape_ai.Kernel.Merge.{apply_merge, merge_into, check_ids, shift_anchors, survivor}
use shape_ai.Kernel.Apply.Ids.{
  UniqueIds, KeepsId, AllNew, UniqueIds-edit_first, UniqueIds-map, UniqueIds-remove_first,
  UniqueIds-filter, UniqueIds-append, any-map, any-edit_first, any-remove_first,
}
use shape_ai.Kernel.Apply.Unique.Handlers.{Unique, Unique-bind}

-- No id is listed twice.
abbrev pub Distinct : List Str → Type 0
Distinct [] = Unit
Distinct (id ∷ ids) = (has ids id ≡ false) × Distinct ids

any-children :
    (o : Object) (j : ObjectId) (ids : List ObjectId) (keys : List Str) (l : List SubPath)
    → has ids j ≡ false
    → any (has_id j) (children o ids keys l) ≡ false
any-children o j [] keys l h = refl
any-children o j (id ∷ ids) [] l h = refl
any-children o j (id ∷ ids) (key ∷ keys) [] h = refl
any-children o j (id ∷ ids) (key ∷ keys) (sp ∷ l) h = ground (arith, any-children o j ids keys l)

UniqueIds-children :
    (o : Object) (ids : List ObjectId) (keys : List Str) (l : List SubPath)
    → Distinct ids
    → UniqueIds (children o ids keys l)
UniqueIds-children o [] keys l d = tt
UniqueIds-children o (id ∷ ids) [] l d = tt
UniqueIds-children o (id ∷ ids) (key ∷ keys) [] d = tt
UniqueIds-children o (id ∷ ids) (key ∷ keys) (sp ∷ l) d =
    (any-children o id ids keys l d.0, UniqueIds-children o ids keys l d.1)

AllNew-children :
    (objects : List Object) (o : Object) (ids : List ObjectId) (keys : List Str) (l : List SubPath)
    → All (λ id. any (has_id id) objects ≡ false) ids
    → AllNew objects (children o ids keys l)
AllNew-children objects o [] keys l h = tt
AllNew-children objects o (id ∷ ids) [] l h = tt
AllNew-children objects o (id ∷ ids) (key ∷ keys) [] h = tt
AllNew-children objects o (id ∷ ids) (key ∷ keys) (sp ∷ l) h =
    (h.0, AllNew-children objects o ids keys l h.1)

check_new_ids-ok :
    (scene : ObjectScene) (id : ObjectId) (ids : List ObjectId)
    → check_new_ids scene id ids ≡ ok tt
    → All (λ nid. any (has_id nid) scene.objects ≡ false) ids
unfolding check_new_ids
check_new_ids-ok scene id [] h = tt
check_new_ids-ok scene id (nid ∷ ids) h =
    let (passed, rest) = fail_if-eq-ok (nid == id || is_there scene nid) _ _ h in
    (ground arith, check_new_ids-ok scene id ids rest)

rehome_peer_keeps : (plan : Plan) → KeepsId (rehome_peer plan)
unfolding rehome_peer
rehome_peer_keeps plan o = elim (Bool-cases (o.id == plan.id)) [ inl e ↦ rw e | inr e ↦ rw e ]

UniqueIds-shrink_source :
    (plan : Plan) (o : Object) (objects : List Object)
    → UniqueIds objects
    → UniqueIds (shrink_source plan o objects)
unfolding shrink_source
UniqueIds-shrink_source plan o objects u = elim (Bool-cases (is_empty plan.kept)) [
  | inl e ↦ rw e (UniqueIds-remove_first (has_id plan.id) objects u)
  | inr e ↦ rw e (UniqueIds-edit_first (has_id plan.id) _ (λ p. refl) objects u)
]

any-shrink_source :
    (plan : Plan) (o : Object) (j : ObjectId) (objects : List Object)
    → any (has_id j) objects ≡ false
    → any (has_id j) (shrink_source plan o objects) ≡ false
unfolding shrink_source
any-shrink_source plan o j objects h = elim (Bool-cases (is_empty plan.kept)) [
  | inl e ↦ rw e (any-remove_first (has_id j) (has_id plan.id) objects h)
  | inr e ↦ rw e (any-edit_first (has_id plan.id) _ (λ p. refl) j objects ∙ h)
]

All-mono {ℓ} :
    {A : Type ℓ} (P Q : A → Type 0) (l : List A) → ((a : A) → P a → Q a) → All P l → All Q l
All-mono P Q [] f h = tt
All-mono P Q (a ∷ l) f h = (f a h.0, All-mono P Q l f h.1)

module _ (scene : ObjectScene) (u : UniqueIds scene.objects) where
  UniqueIds-split :
      (plan : Plan) (o : Object) (new_ids : List ObjectId) (keys : List Str) (l : List SubPath)
      → Distinct new_ids
      → All (λ nid. any (has_id nid) scene.objects ≡ false) new_ids
      → UniqueIds
          (shrink_source plan o (map (rehome_peer plan) scene.objects) ++ children o new_ids keys l)
  UniqueIds-split plan o new_ids keys l d new =
      let moved = map (rehome_peer plan) scene.objects in
      let k = rehome_peer_keeps plan in
      UniqueIds-append (shrink_source plan o moved) (children o new_ids keys l)
        (UniqueIds-shrink_source plan o moved (UniqueIds-map (rehome_peer plan) k scene.objects u))
        (UniqueIds-children o new_ids keys l d)
        (AllNew-children (shrink_source plan o moved) o new_ids keys l (
          All-mono _ _ new_ids
            (λ (j : Str) h.
              any-shrink_source plan o j moved (any-map (rehome_peer plan) k j scene.objects ∙ h))
            new))

  pub Unique-split :
      (id : ObjectId) (new_ids : List ObjectId) (contours : List ℤ)
      → Distinct new_ids
      → Unique (apply_split scene id new_ids contours)
  unfolding apply_split
  Unique-split id new_ids contours d = Unique-bind (index_of scene id) _ λ o _.
      Unique-bind (peeled_contours (length o.geometry.subpaths) contours) _ λ peel _.
        Unique-bind (fail_if (is_empty peel) _) _ λ _ _.
          Unique-bind (fail_if (not (nat_eq (length new_ids) (length peel))) _) _ λ _ _.
            Unique-bind (check_new_ids scene id new_ids) _ λ _ new.
              Unique-bind (order_keys (length peel) o.order) _ λ keys _.
                UniqueIds-split _ o new_ids keys _ d (check_new_ids-ok scene id new_ids new)

  Unique-merge_into :
      (ids : List ObjectId) (survivor_id : ObjectId) → Unique (merge_into scene ids survivor_id)
  unfolding merge_into
  Unique-merge_into ids survivor_id = Unique-bind (check_ids scene [] ids) _ λ _ _.
      Unique-bind (index_of scene survivor_id) _ λ s _.
        UniqueIds-map (shift_anchors survivor_id _) (λ o. refl) _
          (UniqueIds-edit_first (has_id survivor_id) _ (λ p. refl) _
            (UniqueIds-filter _ scene.objects u))

  pub Unique-merge :
      (ids : List ObjectId) (into : Option ObjectId) → Unique (apply_merge scene ids into)
  unfolding apply_merge
  Unique-merge [] into = tt
  Unique-merge (first ∷ ids) into = elim (Bool-cases (has (first ∷ ids) (survivor into first))) [
    | inl e ↦ rw e (Unique-merge_into (first ∷ ids) (survivor into first))
    | inr e ↦ rw e tt
  ]
