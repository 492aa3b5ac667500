-- ===== src/Server/Store/Durable/Writes.antt =====
-- What the writes of crates/server/src/object_store.rs leave in a store with laws.
use mathlib.Core.Path.{subst}
use shape_ai.Common.{
  ℕ, ◌≡◌, refl, sym, ◌∙◌, ap, List, [], ◌∷◌, Bool, true, false, Option, none, some, arith,
  if◌then◌else◌, ◌==◌, eq_iff, Bool-cases, inl, inr,
}
use shape_ai.Common.Str.{str_key}
use shape_ai.Common.Map.{get, insert, get-insert_self}
use shape_ai.Common.Result.{Result, ok, err}
use shape_ai.Kernel.Model.{ObjectId, Object, ObjectScene, get_object}
use shape_ai.Kernel.Op.{ObjectOp, is_empty_batch, target_ids}
use shape_ai.Kernel.Apply.{Store}
use shape_ai.Kernel.Apply.Local.{Local, listed_id}
use shape_ai.Storage.Record.{StorageError}
use shape_ai.Storage.Adapter.{StorageAdapter, AdapterLaws}
use shape_ai.Server.Store.{
  ObjectStore, ObjectStoreError, Codec, CanvasId, object_record_id, written, answered, then_save,
  save_targets, save_target, save_object, save_meta, object_to_record, meta_to_record, lifted,
}
use shape_ai.Server.Store.Durable.Keys.{
  payload_of, encoded, payload_if, object_id_of, not_meta, find_named,
}

module _ {A : Type 0} (codec : Codec) (adapter : StorageAdapter (codec.Payload) A)
    (laws : AdapterLaws adapter) where
  -- Each object of the scene is stored as it is, and no other object of the canvas is.
  unfoldable pub Durable : A → CanvasId → ObjectScene → Type 0
  Durable a canvas_id scene =
      (id : ObjectId)
      → payload_of (laws.held a (object_record_id canvas_id id))
        ≡ encoded codec (get_object scene id)

  lifted-ok :
      {B : Type 0} (p : A × Result StorageError B) (a : A)
      → lifted codec adapter p ≡ (a, ok tt)
      → (b : B) × (p ≡ (a, ok b))
  lifted-ok (a', ok b) a h = (b, ap (λ (q : A × Result ObjectStoreError (Unit {0})). (q.0, ok b)) h)
  lifted-ok (a', err e) a h =
      let wrong : err (ObjectStoreError.storage e) ≡ ok tt =
        ap (λ (q : A × Result ObjectStoreError (Unit {0})). q.1) h in
      cc wrong

  target_saved :
      (a a' : A) (c : CanvasId) (id : ObjectId) (version : ℕ) (found : Option Object)
      → save_target codec adapter a c id version found ≡ (a', ok tt)
      → ((o : Object) → found ≡ some o → o.id ≡ id)
      → (j : ObjectId)
      → payload_of (laws.held a' (object_record_id c j))
        ≡ (if id == j then encoded codec found else payload_of (laws.held a (object_record_id c j)))
  unfolding save_object object_to_record
  target_saved a a' c id version none h at j =
      let (found, e) = lifted-ok (adapter.delete a (object_record_id c id)) a' h in
      ap payload_of (laws.held_deleted a a' (object_record_id c id) found e (object_record_id c j))
      ∙ payload_if (object_record_id c id == object_record_id c j) none
          (laws.held a (object_record_id c j))
      ∙ ap (λ b. if b then none else payload_of (laws.held a (object_record_id c j)))
          (object_id_of c id j)
  target_saved a a' c id version (some o) h at j =
      let (r, key) = object_to_record codec adapter c o version in
      let (u, e) = lifted-ok (adapter.save_indexed a r key) a' h in
      let named : o.id ≡ id = at o refl in
      ap payload_of (laws.held_indexed a a' r key e (object_record_id c j))
      ∙ payload_if (object_record_id c o.id == object_record_id c j) (some r)
          (laws.held a (object_record_id c j))
      ∙ ap
          (λ b.
            if b
            then some (codec.write_object o)
            else payload_of (laws.held a (object_record_id c j)))
          (object_id_of c o.id j ∙ ap (λ k. k == j) named)

  then_save-ok :
      (next : A → A × Result ObjectStoreError (Unit {0}))
      (p : A × Result ObjectStoreError (Unit {0})) (a : A)
      → then_save codec adapter next p ≡ (a, ok tt)
      → (b : A) × (p ≡ (b, ok tt)) × (next b ≡ (a, ok tt))
  then_save-ok next (b, ok u) a h = (b, refl, h)
  then_save-ok next (b, err e) a h =
      let wrong : err e ≡ ok tt = ap (λ (q : A × Result ObjectStoreError (Unit {0})). q.1) h in
      cc wrong

  targets_saved :
      (c : CanvasId) (scene : ObjectScene) (version : ℕ) (ids : List ObjectId) (a a' : A)
      → save_targets codec adapter c scene version ids a ≡ (a', ok tt)
      → (j : ObjectId)
      → payload_of (laws.held a' (object_record_id c j)) ≡ (
          if listed_id ids j
          then encoded codec (get_object scene j)
          else payload_of (laws.held a (object_record_id c j)))
  unfolding save_targets
  targets_saved c scene version [] a a' h j =
      ap
        (λ (q : A × Result ObjectStoreError (Unit {0})).
          payload_of (laws.held q.0 (object_record_id c j)))
        (sym h)
  targets_saved c scene version (id ∷ ids) a a' h j =
      let (b, first, rest) =
        then_save-ok (save_targets codec adapter c scene version ids)
          (save_target codec adapter a c id version (get_object scene id)) a' h in
      let now =
        target_saved a b c id version (get_object scene id) first (find_named scene.objects id) j in
      let later = targets_saved c scene version ids b a' rest j in
      elim (Bool-cases (listed_id ids j)) [
        | inl listed ↦ later ∙ ground (arith, listed)
        | inr free ↦ elim (Bool-cases (id == j)) [
          | inl here ↦
              let e : id ≡ j = (eq_iff id j).0 here in
              later
              ∙ rw (free, here) (now ∙ rw here (ap (λ i. encoded codec (get_object scene i)) e))
          | inr away ↦ later ∙ rw (free, away) (now ∙ rw away refl)
        ]
      ]

  meta_saved :
      (a a' : A) (c : CanvasId) (scene : ObjectScene) (version : ℕ)
      → save_meta codec adapter a c scene version ≡ (a', ok tt)
      → (j : ObjectId) → laws.held a' (object_record_id c j) ≡ laws.held a (object_record_id c j)
  unfolding save_meta meta_to_record
  meta_saved a a' c scene version h j =
      let r = meta_to_record codec adapter c scene version in
      let (u, e) = lifted-ok (adapter.save a r) a' h in
      laws.held_saved a a' r e (object_record_id c j)
      ∙ ap (λ b. if b then some r else laws.held a (object_record_id c j)) (not_meta c j)

  answered-ok :
      (kept s' : ObjectStore A) (inverse inverse' : ObjectOp)
      (p : A × Result ObjectStoreError (Unit {0}))
      → answered codec adapter kept inverse p ≡ (s', ok inverse')
      → (b : A) × (p ≡ (b, ok tt)) × (record kept { adapter = b } ≡ s')
  answered-ok kept s' inverse inverse' (b, ok u) h =
      (b, refl, ap (λ (q : ObjectStore A × Result ObjectStoreError ObjectOp). q.0) h)
  answered-ok kept s' inverse inverse' (b, err e) h =
      let wrong : err e ≡ ok inverse' =
        ap (λ (q : ObjectStore A × Result ObjectStoreError ObjectOp). q.1) h in
      cc wrong

  elsewhere_kept :
      (listed : Bool) (j : ObjectId) (scene before : ObjectScene) {old : Option (codec.Payload)}
      → old ≡ encoded codec (get_object before j)
      → (listed ≡ false → get_object scene j ≡ get_object before j)
      → (if listed then encoded codec (get_object scene j) else old)
        ≡ encoded codec (get_object scene j)
  elsewhere_kept true j scene before h same = refl
  elsewhere_kept false j scene before h same = h ∙ ap (encoded codec) (sym (same refl))

  -- The working set of the canvas and what is stored agree.
  abbrev pub Agrees : ObjectStore A → CanvasId → Type 0
  Agrees s c =
      (scene : ObjectScene) × (gate : Store) × (get c s.working ≡ some (scene, gate))
      × Durable s.adapter c scene

  pub written-Agrees :
      (s s' : ObjectStore A) (c : CanvasId) (op inverse inverse' : ObjectOp) (seq : ℕ)
      (before scene : ObjectScene) (gate : Store)
      → Durable s.adapter c before
      → Local (target_ids op) before scene inverse
      → written codec adapter s c op seq (ok (scene, gate, inverse)) ≡ (s', ok inverse')
      → Agrees s' c
  unfolding Durable
  written-Agrees s s' c op inverse inverse' seq before scene gate held local h =
      let kept : ObjectStore A = record s { working = insert c (scene, gate) s.working } in
      let there = get-insert_self c (scene, gate) s.working in
      elim (Bool-cases (is_empty_batch inverse)) [
        | inl empty ↦
            let s_is : kept ≡ s' =
              ap (λ (q : ObjectStore A × Result ObjectStoreError ObjectOp). q.0) (rw empty at h) in
            subst (λ t. Agrees t c) s_is
              (scene, gate, there, λ j. held j ∙ ap (encoded codec) (sym (local.silent empty j)))
        | inr full ↦
            let (b, saved, s_is) = answered-ok kept s' inverse inverse' _ (rw full at h) in
            let (a', targets, meta) =
              then_save-ok (λ a. save_meta codec adapter a c scene seq)
                (save_targets codec adapter c scene seq (target_ids op) s.adapter) b saved in
            subst (λ t. Agrees t c) s_is
              (
                scene,
                gate,
                there,
                λ j.
                    ap payload_of (meta_saved a' b c scene seq meta j)
                    ∙ targets_saved c scene seq (target_ids op) s.adapter a' targets j
                    ∙ elsewhere_kept (listed_id (target_ids op) j) j scene before (held j)
                        (local.elsewhere j),
              )
      ]
