-- ===== src/Server/Store/Examples.antt =====
-- A drag, written through to a store in memory.
use shape_ai.Common.{
  ◌≡◌, refl, ◌∙◌, ap, [], ◌∷◌, Bool, true, false, none, some, if◌then◌else◌, ◌==◌, edit_first,
}
use shape_ai.Common.Int.{◌+ℤ◌}
use shape_ai.Common.Str.{bytes, str_key}
use shape_ai.Common.Map.{get, insert}
use shape_ai.Common.Result.{ok}
use shape_ai.Lww
use shape_ai.Lww.{empty_store, get_entry, lww_merge_property}
use shape_ai.Kernel.Model.{identity}
use shape_ai.Kernel.Op
use shape_ai.Kernel.Op.{ObjectOp, is_empty_batch, target_ids}
use shape_ai.Kernel.Edit
use shape_ai.Kernel.Edit.{edit_object}
use shape_ai.Kernel.Apply.{
  apply_object_op, apply_inner, apply_object_op_lww, is_stale, touched_properties, mark_all,
}
use shape_ai.Kernel.Apply.Local.{IsLocalOp}
use shape_ai.Storage.Record.{Record}
use shape_ai.Storage.Adapter.{MemoryAdapter, memory_adapter, memory_laws, save, save_indexed}
use shape_ai.Server.Store.{
  ObjectStore, apply_op, object_record_id, loaded, save_object, save_meta, save_targets,
  object_to_record, meta_to_record,
}
use shape_ai.Server.Store.Durable.{
  Agrees, Durable, apply_op-Agrees, payload_of, encoded, object_id_of,
}
use shape_ai.Server.Fixtures.{still, Saved, object, plain, canvas_c, card, disk, scene, drag}

abbrev shop : ObjectStore (MemoryAdapter Saved)
shop = record { adapter = disk; working = (canvas_c, (scene, empty_store)) ∷ [] }

abbrev card_record : Record Saved
card_record = record {
  id = bytes "c:object:a";
  kind = bytes "object";
  version = 0;
  payload = object card;
}

one_card :
    (b : Bool)
    → payload_of (if b then some card_record else none)
      ≡ encoded plain (if b then some card else none)
one_card true = refl
one_card false = refl

shop-Agrees : Agrees plain memory_adapter memory_laws shop canvas_c
unfolding get Durable memory_laws object_record_id
shop-Agrees = (
  scene,
  empty_store,
  refl,
  λ id.
      ap (λ b. payload_of (if b then some card_record else none))
        (object_id_of canvas_c (bytes "a") id)
      ∙ one_card (bytes "a" == id),
)

abbrev shop_after : ObjectStore (MemoryAdapter Saved)
shop_after = (apply_op still plain memory_adapter shop canvas_c drag 1).0

drag_is_written :
    apply_op still plain memory_adapter shop canvas_c drag 1
    ≡ (shop_after, ok (Op.set_transform (bytes "a") identity))
unfolding apply_op loaded apply_object_op_lww apply_object_op apply_inner Edit.set_transform
    edit_object edit_first ◌+ℤ◌ get insert is_stale touched_properties mark_all get_entry Lww.apply
    lww_merge_property is_empty_batch save_targets target_ids save_object save_meta object_to_record
    meta_to_record save_indexed save
drag_is_written = refl

apply_op-Agrees_example : Agrees plain memory_adapter memory_laws shop_after canvas_c
unfolding IsLocalOp
apply_op-Agrees_example =
    apply_op-Agrees still plain memory_adapter memory_laws shop shop_after canvas_c drag
      (Op.set_transform (bytes "a") identity) 1 tt shop-Agrees drag_is_written
