-- ===== src/Server/Actor/Step/Saves.antt =====
-- The writes of crates/server/src/object_store.rs over a store that does not fail.
use shape_ai.Common.{ℕ, ◌≡◌, refl, ◌∙◌, ap, List, [], ◌∷◌, Option, none, some, Bool-cases, inl, inr}
use shape_ai.Common.Str.{str_key}
use shape_ai.Common.Map.{get, insert}
use shape_ai.Common.Result.{ok}
use shape_ai.Kernel.Model.{ObjectId, Object, ObjectScene, get_object}
use shape_ai.Kernel.Op.{ObjectOp, is_empty_batch, target_ids}
use shape_ai.Kernel.Apply.{Store}
use shape_ai.Storage.Adapter.{StorageAdapter, Reliable}
use shape_ai.Server.Dedup.{op_key}
use shape_ai.Server.Store.{
  ObjectStore, Codec, CanvasId, loaded, written, save_targets, save_target, save_object, save_meta,
  object_record_id, object_to_record, meta_to_record, lifted, then_save, answered,
}

module _ {A : Type 0} (codec : Codec) (adapter : StorageAdapter (codec.Payload) A) where
  pub loaded_there :
      (s : ObjectStore A) (canvas_id : CanvasId) (work : ObjectScene × Store)
      → get canvas_id s.working ≡ some work
      → loaded codec adapter s canvas_id ≡ ok (s, work)
  unfolding loaded
  loaded_there s canvas_id work there = rw there refl

module _ {A : Type 0} (codec : Codec) (adapter : StorageAdapter (codec.Payload) A)
    (steady : Reliable adapter) where
  saved_target :
      (a : A) (canvas_id : CanvasId) (id : ObjectId) (version : ℕ) (found : Option Object)
      → (a' : A) × (save_target codec adapter a canvas_id id version found ≡ (a', ok tt))
  unfolding save_object object_to_record
  saved_target a canvas_id id version none =
      let (a', found, e) = steady.deletes a (object_record_id canvas_id id) in
      (a', ap (lifted codec adapter) e)
  saved_target a canvas_id id version (some o) =
      let (r, key) = object_to_record codec adapter canvas_id o version in
      let (a', e) = steady.indexes a r key in (a', ap (lifted codec adapter) e)

  saved_meta :
      (a : A) (canvas_id : CanvasId) (scene : ObjectScene) (version : ℕ)
      → (a' : A) × (save_meta codec adapter a canvas_id scene version ≡ (a', ok tt))
  unfolding save_meta
  saved_meta a canvas_id scene version =
      let (a', e) = steady.saves a (meta_to_record codec adapter canvas_id scene version) in
      (a', ap (lifted codec adapter) e)

  saved_targets :
      (canvas_id : CanvasId) (scene : ObjectScene) (version : ℕ) (ids : List ObjectId) (a : A)
      → (a' : A) × (save_targets codec adapter canvas_id scene version ids a ≡ (a', ok tt))
  unfolding save_targets
  saved_targets canvas_id scene version [] a = (a, refl)
  saved_targets canvas_id scene version (id ∷ ids) a =
      let next = save_targets codec adapter canvas_id scene version ids in
      let (a', e) = saved_target a canvas_id id version (get_object scene id) in
      let (b, rest) = saved_targets canvas_id scene version ids a' in
      (b, ap (then_save codec adapter next) e ∙ rest)

  -- What an application that succeeded leaves in the working set and, somehow, in the store.
  pub written_ok :
      (s : ObjectStore A) (canvas_id : CanvasId) (op inverse : ObjectOp) (seq : ℕ)
      (scene : ObjectScene) (gate : Store)
      → (a : A) × (written codec adapter s canvas_id op seq (ok (scene, gate, inverse)) ≡ (
        record { adapter = a; working = insert canvas_id (scene, gate) s.working },
        ok inverse,
      ))
  written_ok s canvas_id op inverse seq scene gate =
      let kept = record s { working = insert canvas_id (scene, gate) s.working } in
      let next = λ (a : A). save_meta codec adapter a canvas_id scene seq in
      let (a', e) = saved_targets canvas_id scene seq (target_ids op) s.adapter in
      let (b, f) = saved_meta a' canvas_id scene seq in
      elim (Bool-cases (is_empty_batch inverse)) [
        | inl empty ↦ (s.adapter, rw empty refl)
        | inr full ↦ (
          b,
          rw full
              (ap (answered codec adapter kept inverse) (ap (then_save codec adapter next) e ∙ f)),
        )
      ]
