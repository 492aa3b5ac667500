-- ===== src/Client/Engine/Keys.antt =====
-- The keys of properties and their ownership counts in crates/client-runtime/src/sync_engine.rs.
use shape_ai.Common.{
  List, [], ◌∷◌, ◌++◌, Bool, false, Option, none, some, if◌then◌else◌, is_empty, any,
}
use shape_ai.Common.Int.{ℤ, pos, leb_ℤ, ◌+ℤ◌, ◌-ℤ◌}
use shape_ai.Common.Str.{Str, bytes, str_key}
use shape_ai.Common.Map.{Map, get, insert, remove, contains_key}
use shape_ai.Kernel.Model.{ObjectId}
use shape_ai.Kernel.Op
use shape_ai.Kernel.Op.{ObjectOp, Ops, nil, cons, is_empty_batch, target_ids}
use shape_ai.Kernel.Edit.{ApplyError}
use shape_ai.Client.Wire.{OpId}

abbrev pub default_coalesce_ms : ℤ
default_coalesce_ms = pos 33

-- The texts of errors are not kept.
pub record AuthorResult : Type 0 where
  pub errors : List ApplyError
  pub op_id : Option OpId
  pub inverse : Option ObjectOp

abbrev pub field_key : ObjectId → Str → Str
field_key id field = id ++ b':' ∷ field

unfoldable mutual
  pub owned_keys : ObjectOp → List Str
  owned_keys (Op.set_transform id _) = field_key id (bytes "transform") ∷ []
  owned_keys (Op.edit_geometry id _) = field_key id (bytes "geometry") ∷ []
  owned_keys (Op.set_text id _) = field_key id (bytes "text") ∷ []
  owned_keys (Op.set_style id _ _) = field_key id (bytes "style") ∷ []
  owned_keys (Op.batch ops) = owned_keys_of ops
  owned_keys (Op.insert_object _) = []
  owned_keys (Op.set_anchor _ _) = []
  owned_keys (Op.set_layout _ _) = []
  owned_keys (Op.set_clip _ _) = []
  owned_keys (Op.set_sizing _ _) = []
  owned_keys (Op.set_meta _ _ _ _) = []
  owned_keys (Op.canonicalize _) = []
  owned_keys (Op.add_comment _ _) = []
  owned_keys (Op.set_comments _ _) = []
  owned_keys (Op.set_tags _ _) = []
  owned_keys (Op.reparent _ _ _) = []
  owned_keys (Op.reorder _ _) = []
  owned_keys (Op.delete _) = []
  owned_keys (Op.split _ _ _) = []
  owned_keys (Op.merge _ _) = []

  pub owned_keys_of : Ops → List Str
  owned_keys_of nil = []
  owned_keys_of (cons op ops) = owned_keys op ++ owned_keys_of ops

unfoldable pub remote_touches_owned_key : ObjectOp → Map Str ℤ → Bool
remote_touches_owned_key op owned =
    if is_empty owned then false else any (λ k. contains_key k owned) (owned_keys op)

abbrev pub or_zero : Option ℤ → ℤ
or_zero none = pos 0
or_zero (some n) = n

-- One more owner for each key.
unfoldable pub count_up : Map Str ℤ → List Str → Map Str ℤ
count_up owned [] = owned
count_up owned (k ∷ keys) = count_up (insert k (or_zero (get k owned) +ℤ pos 1) owned) keys

-- One owner less for each key. A key without an owner is settled.
unfoldable pub count_down : Map Str ℤ → List Str → List Str → Map Str ℤ × List Str
count_down owned settled [] = (owned, settled)
count_down owned settled (k ∷ keys) =
    let count = or_zero (get k owned) -ℤ pos 1 in
    if leb_ℤ count (pos 0)
    then count_down (remove k owned) (settled ++ k ∷ []) keys
    else count_down (insert k count owned) settled keys
