-- ===== src/Server/Store/Records.antt =====
-- The records that crates/server/src/object_store.rs makes of a scene, and a scene of records.
use shape_ai.Common.{
  List, [], ◌∷◌, ◌++◌, Bool, Option, none, some, if◌then◌else◌, ◌==◌, take, length,
}
use shape_ai.Common.Int.{ℤ, pos}
use shape_ai.Common.Str.{Str, bytes, str_lt, str_key}
use shape_ai.Common.Result.{Result, ok, err}
use shape_ai.Kernel.Model.{Object, ObjectScene, ObjectSelection, canvas, TagDef, ObjectId, Geometry}
use shape_ai.Kernel.Path.{PathError, ensure_parsed}
use shape_ai.Kernel.Edit.{ApplyError}
use shape_ai.Storage.Record.{StorageError, RegionKey}

pub data ObjectStoreError : Type 0 where
  apply_error : ApplyError → ObjectStoreError
  storage : StorageError → ObjectStoreError

abbrev pub kind_object : Str
kind_object = bytes "object"

abbrev pub kind_canvas : Str
kind_canvas = bytes "canvas"

abbrev pub CanvasId : Type 0
CanvasId = Str

unfoldable pub object_record_id : CanvasId → ObjectId → Str
object_record_id canvas_id object_id = canvas_id ++ bytes ":object:" ++ object_id

unfoldable pub canvas_record_id : CanvasId → Str
canvas_record_id canvas_id = canvas_id ++ bytes ":canvas"

unfoldable pub canvas_record_prefix : CanvasId → Str
canvas_record_prefix canvas_id = canvas_id ++ bytes ":"

pub record CanvasMeta : Type 0 where
  pub scene_version : ℤ
  pub tags : List TagDef
  pub selection : ObjectSelection
  pub updated_at : Str

-- The JSON of serde_json: `read` is none for a malformed payload.
pub record Codec : Type 1 where
  pub Payload : Type 0
  pub write_object : Object → Payload
  pub read_object : Payload → Option Object
  pub write_meta : CanvasMeta → Payload
  pub read_meta : Payload → Option CanvasMeta
  pub region_key : CanvasId → Object → Option RegionKey

abbrev pub starts_with : Str → Str → Bool
starts_with prefix s = take (length prefix) s == prefix

abbrev geometry_or : Geometry → Result PathError Geometry → Geometry
geometry_or g (ok parsed) = parsed
geometry_or g (err e) = g

-- `let _ = object.ensure_parsed()`: an error leaves the object as it was.
unfoldable pub object_parsed : Object → Object
object_parsed o = record o { geometry = geometry_or o.geometry (ensure_parsed o.geometry) }

-- `sort_by` is stable.
unfoldable pub insert_by_id : Object → List Object → List Object
insert_by_id o [] = o ∷ []
insert_by_id o (x ∷ l) =
    let rest = insert_by_id o l in if str_lt o.id x.id then o ∷ x ∷ l else x ∷ rest

unfoldable pub sort_by_id : List Object → List Object → List Object
sort_by_id sorted [] = sorted
sort_by_id sorted (o ∷ l) = sort_by_id (insert_by_id o sorted) l

abbrev pub default_meta : CanvasMeta
default_meta = record { scene_version = pos 0; tags = []; selection = canvas; updated_at = [] }

abbrev pub meta_or_default : Option CanvasMeta → CanvasMeta
meta_or_default none = default_meta
meta_or_default (some meta) = meta

abbrev pub scene_of : List Object → CanvasMeta → ObjectScene
scene_of objects meta = record {
  scene_version = meta.scene_version;
  objects = objects;
  tags = meta.tags;
  selection = meta.selection;
  updated_at = meta.updated_at;
}

abbrev pub meta_of : ObjectScene → CanvasMeta
meta_of scene = record {
  scene_version = scene.scene_version;
  tags = scene.tags;
  selection = scene.selection;
  updated_at = scene.updated_at;
}
