-- ===== src/Storage/Record.antt =====
-- crates/storage-core/src/record.rs, error.rs and spatial.rs: the data of a store. A payload is opaque
-- here and stands for its bytes; a coordinate is an f64 pattern that is not computed with.
use shape_ai.Common.{ℕ}
use shape_ai.Common.Str.{Str}
use shape_ai.Common.Map.{Map}
use shape_ai.Kernel.Model.{F64}

pub record Record (Payload : Type 0) : Type 0 where
  pub id : Str
  pub kind : Str
  pub version : ℕ
  pub payload : Payload

-- The records by their ids.
abbrev pub StoreSnapshot : Type 0 → Type 0
StoreSnapshot Payload = Map Str (Record Payload)

pub data StorageError : Type 0 where
  not_found : (id : Str) → StorageError
  format io serde : StorageError
  unsupported : (kind op : Str) → StorageError

pub record RegionKey : Type 0 where
  pub canvas_id : Str
  pub min_x : F64
  pub min_y : F64
  pub max_x : F64
  pub max_y : F64
