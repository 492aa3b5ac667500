-- ===== src/Lww.antt =====
-- crates/scene-core/src/lww.rs: the last writer of each property wins. The JSON value is a
-- parameter `V`, since no value is looked into.
pub mod Laws
mod Examples
use shape_ai.Common.{Bool, true, false, Option, none, some, [], if◌then◌else◌}
use shape_ai.Common.Int.{ℤ, ltb_ℤ}
use shape_ai.Common.Str.{Str, str_key}
use shape_ai.Common.Map.{Map, get, insert}

pub record LwwEntry {ℓ} (V : Type ℓ) : Type ℓ where
  pub value : V
  pub seq : ℤ

pub record LwwToken : Type 0 where
  pub revision : ℤ
  pub seq : ℤ

abbrev pub wins_over : LwwToken → LwwToken → Bool
wins_over self other = ltb_ℤ other.seq self.seq

pub record PropertyStore {ℓ} (V : Type ℓ) : Type ℓ where
  pub objects : Map Str (Map Str (LwwEntry V))

module _ {ℓ} {V : Type ℓ} where
  unfoldable pub lww_merge_property : Option (LwwEntry V) → LwwEntry V → Bool
  lww_merge_property none incoming = true
  lww_merge_property (some cur) incoming = ltb_ℤ cur.seq incoming.seq

  abbrev pub or_default : Option (Map Str (LwwEntry V)) → Map Str (LwwEntry V)
  or_default none = []
  or_default (some props) = props

  unfoldable pub apply : PropertyStore V → Str → Str → V → ℤ → PropertyStore V × Bool
  apply store object_id property value seq =
      let incoming : LwwEntry V = record { value = value; seq = seq } in
      let props = or_default (get object_id store.objects) in
      if lww_merge_property (get property props) incoming
      then (
        record { objects = insert object_id (insert property incoming props) store.objects },
        true,
      )
      else (record { objects = insert object_id props store.objects }, false)

  abbrev get_in : Str → Option (Map Str (LwwEntry V)) → Option (LwwEntry V)
  get_in property none = none
  get_in property (some props) = get property props

  -- `PropertyStore::get`.
  unfoldable pub get_entry : PropertyStore V → Str → Str → Option (LwwEntry V)
  get_entry store object_id property = get_in property (get object_id store.objects)

  abbrev value_of : Option (LwwEntry V) → Option V
  value_of none = none
  value_of (some e) = some e.value

  unfoldable pub get_value : PropertyStore V → Str → Str → Option V
  get_value store object_id property = value_of (get_entry store object_id property)

-- `PropertyStore::new`.
abbrev pub empty_store {ℓ} : {V : Type ℓ} → PropertyStore V
empty_store = record { objects = [] }
