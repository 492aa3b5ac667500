-- ===== src/Client/Wire.antt =====
-- crates/scene-core/src/wire.rs: the envelope of an operation, and the JSON that serde_json makes.
pub mod Keys
use shape_ai.Common.{◌≡◌, ◌∙◌, refl, ap, [], ◌∷◌, ◌++◌, Option, ◌≢◌, All, arith, Eq, ◌==◌}
use shape_ai.Common.Int.{ℤ, pos, negsuc, pos_part, neg_part}
use shape_ai.Common.Str.{Str}
use shape_ai.Common.Decimal.{display}
use shape_ai.Kernel.Op.{ObjectOp}

pub record OpId : Type 0 where
  pub client_id : Str
  pub local_seq : ℤ

pub record WireOp (Json : Type 0) : Type 0 where
  pub op_id : OpId
  pub object_id : Str
  pub kind : Str
  pub prop_delta : Json
  pub base_revision : ℤ
  pub actor : Str
  pub ts : Str

-- serde_json: the value of an operation, its reading, and the text under the key `kind`.
pub record Serde : Type 1 where
  pub Json : Type 0
  pub to_value : ObjectOp → Json
  pub from_value : Json → Option ObjectOp
  pub kind_tag : Json → Str

-- crates/client-runtime/src/outbox.rs: the text of an id, `clientId:localSeq`.
unfoldable pub op_id_key : OpId → Str
op_id_key op_id = op_id.client_id ++ b':' ∷ display op_id.local_seq
