-- ===== src/Server/Store.antt =====
-- crates/server/src/object_store.rs: the scenes of the canvases over a store of records. serde_json and
-- the f64 extents of object_region_key are parameters.
pub mod Records
pub mod Durable
mod Examples
use shape_ai.Common.{
  ℕ, List, [], ◌∷◌, ◌++◌, Bool, ◌&&◌, Option, none, some, if◌then◌else◌, ◌==◌, take, length,
}
use shape_ai.Common.Int.{ℤ, pos}
use shape_ai.Common.Str.{Str, bytes, str_lt, str_key}
use shape_ai.Common.Map.{Map, get, insert}
use shape_ai.Common.Result.{Result, ok, err, ◌>>=◌}
use shape_ai.Lww.{empty_store}
use shape_ai.Kernel.Model.{
  Object, ObjectScene, ObjectSelection, canvas, TagDef, ObjectId, Geometry, get_object,
}
use shape_ai.Kernel.Path.{PathError, ensure_parsed}
use shape_ai.Kernel.Op.{ObjectOp, is_empty_batch, target_ids}
use shape_ai.Kernel.Edit.{ApplyError}
use shape_ai.Kernel.Apply.{Affine, Store, apply_object_op_lww}
use shape_ai.Storage.Record.{Record, StorageError, RegionKey}
use shape_ai.Storage.Adapter.{StorageAdapter}
pub use shape_ai.Server.Store.Records.{
  ObjectStoreError, apply_error, CanvasId, CanvasMeta, Codec, starts_with,
}
unfoldable pub use shape_ai.Server.Store.Records.{
  object_record_id, canvas_record_id, canvas_record_prefix, object_parsed, insert_by_id, sort_by_id,
}
use shape_ai.Server.Store.Records.{
  storage, kind_object, kind_canvas, meta_or_default, scene_of, meta_of,
}

pub record ObjectStore (A : Type 0) : Type 0 where
  pub adapter : A
  pub working : Map Str (ObjectScene × Store)

abbrev pub stored {ℓ} : {A : Type ℓ} → Result StorageError A → Result ObjectStoreError A
stored (ok a) = ok a
stored (err e) = err (storage e)

abbrev pub decoded {ℓ} : {A : Type ℓ} → Option A → Result ObjectStoreError A
decoded none = err (storage StorageError.serde)
decoded (some a) = ok a

module _ {A : Type 0} (codec : Codec) (adapter : StorageAdapter (codec.Payload) A) where
  -- `ObjectStore::new`.
  abbrev pub new_store : A → ObjectStore A
  new_store a = record { adapter = a; working = [] }

  unfoldable pub object_to_record :
      CanvasId → Object → ℕ → Record (codec.Payload) × Option RegionKey
  object_to_record canvas_id o version = (
    record {
      id = object_record_id canvas_id o.id;
      kind = kind_object;
      version = version;
      payload = codec.write_object o;
    },
    codec.region_key canvas_id o,
  )

  unfoldable pub meta_to_record : CanvasId → ObjectScene → ℕ → Record (codec.Payload)
  meta_to_record canvas_id scene version = record {
    id = canvas_record_id canvas_id;
    kind = kind_canvas;
    version = version;
    payload = codec.write_meta (meta_of scene);
  }

  -- What one record adds to the objects and the meta data.
  abbrev pub sorted_in :
      CanvasId
      → Str
      → List Object
      → Option CanvasMeta
      → Record (codec.Payload)
      → Result ObjectStoreError (List Object × Option CanvasMeta)
  sorted_in canvas_id id objects meta r =
      let as_object = do
        o ← decoded (codec.read_object r.payload)
        ok (objects ++ object_parsed o ∷ [], meta)
      in let as_meta = do m ← decoded (codec.read_meta r.payload); ok (objects, some m)
        in if r.kind == kind_object
          then as_object
          else if r.kind == kind_canvas && id == canvas_record_id canvas_id
          then as_meta
          else ok (objects, meta)

  unfoldable pub collect :
      A
      → CanvasId
      → List Str
      → List Object
      → Option CanvasMeta
      → Result ObjectStoreError (List Object × Option CanvasMeta)
  collect a canvas_id [] objects meta = ok (objects, meta)
  collect a canvas_id (id ∷ ids) objects meta =
      let skipped = collect a canvas_id ids objects meta in
      let taken = do
        r ← stored (adapter.load a id)
        (objects', meta') ← sorted_in canvas_id id objects meta r
        collect a canvas_id ids objects' meta'
      in if starts_with (canvas_record_prefix canvas_id) id then taken else skipped

  unfoldable pub load_scene : A → CanvasId → Result ObjectStoreError ObjectScene
  load_scene a canvas_id = do
    ids ← stored (adapter.list a)
    (objects, meta) ← collect a canvas_id ids [] none
    ok (scene_of (sort_by_id [] objects) (meta_or_default meta))

  abbrev load_cold :
      ObjectStore A
      → CanvasId
      → Option (ObjectScene × Store)
      → Result ObjectStoreError (ObjectStore A × (ObjectScene × Store))
  load_cold s canvas_id (some work) = ok (s, work)
  load_cold s canvas_id none = do
    scene ← load_scene s.adapter canvas_id
    ok (
      record s { working = insert canvas_id (scene, empty_store) s.working },
      (scene, empty_store),
    )

  -- `ensure_loaded` and the working set that is there then.
  unfoldable pub loaded :
      ObjectStore A → CanvasId → Result ObjectStoreError (ObjectStore A × (ObjectScene × Store))
  loaded s canvas_id = load_cold s canvas_id (get canvas_id s.working)

  abbrev pub lifted {ℓ} :
      {B : Type ℓ} → A × Result StorageError B → A × Result ObjectStoreError (Unit {0})
  lifted (a, ok b) = (a, ok tt)
  lifted (a, err e) = (a, err (storage e))

  unfoldable pub save_object : A → CanvasId → Object → ℕ → A × Result ObjectStoreError (Unit {0})
  save_object a canvas_id o version =
      let (r, key) = object_to_record canvas_id o version in lifted (adapter.save_indexed a r key)

  unfoldable pub save_meta : A → CanvasId → ObjectScene → ℕ → A × Result ObjectStoreError (Unit {0})
  save_meta a canvas_id scene version =
      lifted (adapter.save a (meta_to_record canvas_id scene version))

  -- An object that is there is written; the record of one that is gone is removed.
  abbrev pub save_target :
      A → CanvasId → ObjectId → ℕ → Option Object → A × Result ObjectStoreError (Unit {0})
  save_target a canvas_id id version none =
      lifted (adapter.delete a (object_record_id canvas_id id))
  save_target a canvas_id id version (some o) = save_object a canvas_id o version

  abbrev pub then_save :
      (A → A × Result ObjectStoreError (Unit {0}))
      → A × Result ObjectStoreError (Unit {0})
      → A × Result ObjectStoreError (Unit {0})
  then_save next (a, ok u) = next a
  then_save next (a, err e) = (a, err e)

  unfoldable pub save_targets :
      CanvasId → ObjectScene → ℕ → List ObjectId → A → A × Result ObjectStoreError (Unit {0})
  save_targets canvas_id scene version [] a = (a, ok tt)
  save_targets canvas_id scene version (id ∷ ids) a =
      then_save (save_targets canvas_id scene version ids)
        (save_target a canvas_id id version (get_object scene id))

  abbrev pub answered :
      ObjectStore A
      → ObjectOp
      → A × Result ObjectStoreError (Unit {0})
      → ObjectStore A × Result ObjectStoreError ObjectOp
  answered s inverse (a, ok u) = (record s { adapter = a }, ok inverse)
  answered s inverse (a, err e) = (record s { adapter = a }, err e)

  abbrev pub written :
      ObjectStore A
      → CanvasId
      → ObjectOp
      → ℕ
      → Result ApplyError (ObjectScene × Store × ObjectOp)
      → ObjectStore A × Result ObjectStoreError ObjectOp
  written s canvas_id op seq (err e) = (s, err (apply_error e))
  written s canvas_id op seq (ok (scene, store, inverse)) =
      let kept = record s { working = insert canvas_id (scene, store) s.working } in
      let saved =
        then_save (λ a. save_meta a canvas_id scene seq)
          (save_targets canvas_id scene seq (target_ids op) kept.adapter) in
      if is_empty_batch inverse then (kept, ok inverse) else answered kept inverse saved

module _ (affine : Affine) {A : Type 0} (codec : Codec)
    (adapter : StorageAdapter (codec.Payload) A) where
  abbrev pub apply_loaded :
      ObjectStore A
      → CanvasId
      → ObjectOp
      → ℕ
      → Result ObjectStoreError (ObjectStore A × (ObjectScene × Store))
      → ObjectStore A × Result ObjectStoreError ObjectOp
  apply_loaded s canvas_id op seq (err e) = (s, err e)
  apply_loaded s canvas_id op seq (ok (s', (scene, store))) =
      written codec adapter s' canvas_id op seq (apply_object_op_lww affine scene store op seq)

  -- `ObjectStore::apply`.
  unfoldable pub apply_op :
      ObjectStore A → CanvasId → ObjectOp → ℕ → ObjectStore A × Result ObjectStoreError ObjectOp
  apply_op s canvas_id op seq = apply_loaded s canvas_id op seq (loaded codec adapter s canvas_id)
