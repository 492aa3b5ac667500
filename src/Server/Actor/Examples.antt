-- ===== src/Server/Actor/Examples.antt =====
-- An actor over a store in memory: a start, a drag, and the drag again.
use shape_ai.Common.{◌≡◌, refl, List, [], ◌∷◌, Option, none, some, arith, edit_first, All, ◌⊎◌, ◌≤◌}
use shape_ai.Common.Int.{pos, ◌+ℤ◌}
use shape_ai.Common.Str.{bytes, str_key}
use shape_ai.Common.Map.{get, insert}
use shape_ai.Common.Result.{ok}
use shape_ai.Lww
use shape_ai.Lww.{empty_store, get_entry, lww_merge_property}
use shape_ai.Kernel.Model.{ObjectScene, empty_scene, translate, identity}
use shape_ai.Kernel.Op
use shape_ai.Kernel.Op.{ObjectOp, is_empty_batch, target_ids}
use shape_ai.Kernel.Edit
use shape_ai.Kernel.Edit.{edit_object}
use shape_ai.Kernel.Path.{ensure_parsed}
use shape_ai.Kernel.Apply.{
  apply_object_op, apply_inner, apply_object_op_lww, is_stale, touched_properties, mark_all,
}
use shape_ai.Storage.Adapter.{
  MemoryAdapter, memory_adapter, save, load, list, save_indexed, ids, insert_id, memory-Reliable,
}
use shape_ai.Server.Dedup.{OpId, empty_table, seen, record_ack, record_within, evict, op_key}
use shape_ai.Server.Store.{
  load_scene, collect, sort_by_id, insert_by_id, object_parsed, canvas_record_prefix,
  canvas_record_id, apply_op, loaded, save_object, save_meta, save_targets, object_to_record,
  meta_to_record,
}
use shape_ai.Server.Actor.{
  CanvasActor, OpEnvelope, CanvasCommand, apply_envelope, feature, get_scene, Reply, result,
  applied, PatchBroadcast, run, handle, handle_apply, handle_apply_envelope, entry_record, current,
}
use shape_ai.Server.Fixtures.{still, Saved, plain, plain_journal, canvas_c, card, disk, scene, drag}
use shape_ai.Server.Actor.Recover.{load_journal, journal_ids, read_entries, spawn}
use shape_ai.Server.Actor.Step.{InStep, Applies, Refuses, handle_apply_lem}
use shape_ai.Server.Actor.Runs.{Comes, IsLevel, works, work, run-InStep}
use shape_ai.Server.Actor.Spawn.{spawn-InStep, IsEven-empty, below_empty, IsTable-empty}
use shape_ai.Server.Actor.Once.{handle-resent}

disk_reads : load_scene plain memory_adapter disk canvas_c ≡ ok scene
unfolding load_scene collect list load ids insert_id canvas_record_prefix canvas_record_id get
    sort_by_id insert_by_id object_parsed ensure_parsed
disk_reads = refl

no_journal : load_journal still plain memory_adapter plain_journal disk canvas_c ≡ some []
unfolding load_journal list ids insert_id journal_ids read_entries
no_journal = refl

spawn-InStep_example :
    (actor : CanvasActor (MemoryAdapter Saved)) × (spawn still plain memory_adapter plain_journal
        canvas_c disk
      ≡ some actor)
    × (now : InStep 0 actor) × (now.scene ≡ scene)
spawn-InStep_example =
    spawn-InStep still plain memory_adapter plain_journal canvas_c disk 0 scene [] disk_reads refl
      no_journal tt

-- The actor that started.
abbrev started : CanvasActor (MemoryAdapter Saved)
started = record {
  canvas_id = canvas_c;
  store = record { adapter = disk; working = (canvas_c, (scene, empty_store)) ∷ [] };
  seq = pos 0;
  dedup = empty_table;
}

abbrev books : InStep 0 started
unfolding get
books = record {
  scene = scene;
  gate = empty_store;
  there = refl;
  seq_is = refl;
  version_is = refl;
  below = below_empty 0;
  even = IsEven-empty;
  table = IsTable-empty;
}

abbrev op_1 : OpId
op_1 = record { client_id = bytes "k"; local_seq = pos 1 }

abbrev envelope : OpEnvelope
envelope = record { op_id = op_1; base_revision = pos 0; ts = []; op = drag }

abbrev commands : List CanvasCommand
commands =
    apply_envelope envelope (bytes "u")
    ∷ get_scene
    ∷ feature (drag ∷ Op.delete (bytes "zz") ∷ []) (bytes "u")
    ∷ []

few_commands : works commands ≤ 3
unfolding works work
few_commands = omega arith

run-InStep_example :
    Comes 0 started
      (works commands)
      (All IsLevel)
      (run still plain memory_adapter plain_journal started commands)
run-InStep_example =
    run-InStep still plain memory_adapter plain_journal memory-Reliable 0 started commands books
      (let h = few_commands in omega arith)

handle_apply_lem_example :
    Applies still books drag (some op_1) (bytes "u") (
      handle_apply still plain memory_adapter plain_journal started drag
        (pos 0)
        (some op_1)
        (bytes "u"))
    ⊎ Refuses still books drag (
        handle_apply still plain memory_adapter plain_journal started drag
          (pos 0)
          (some op_1)
          (bytes "u"))
handle_apply_lem_example =
    handle_apply_lem still plain memory_adapter plain_journal memory-Reliable 0 started books drag
      (pos 0) (some op_1) (bytes "u") (omega arith)

abbrev dragged : ObjectScene
dragged = record empty_scene {
  scene_version = pos 1;
  objects = record card { transform = translate 1 2 } ∷ [];
}

drag_runs : apply_object_op still scene drag ≡ ok (dragged, Op.set_transform (bytes "a") identity)
unfolding apply_object_op apply_inner Edit.set_transform edit_object edit_first ◌+ℤ◌
drag_runs = refl

abbrev or_started :
    Option (CanvasActor (MemoryAdapter Saved) × List Reply × List PatchBroadcast)
    → CanvasActor (MemoryAdapter Saved) × List Reply × List PatchBroadcast
or_started none = (started, [], [])
or_started (some p) = p

abbrev first_run : CanvasActor (MemoryAdapter Saved) × List Reply × List PatchBroadcast
first_run = or_started (
    run still plain memory_adapter plain_journal started
      (apply_envelope envelope (bytes "u") ∷ get_scene ∷ []))

first_runs :
    run still plain memory_adapter plain_journal started
      (apply_envelope envelope (bytes "u") ∷ get_scene ∷ [])
    ≡ some first_run
unfolding run handle handle_apply_envelope handle_apply apply_op loaded apply_object_op_lww
    apply_object_op apply_inner Edit.set_transform edit_object edit_first ◌+ℤ◌ seen get insert
    is_stale touched_properties mark_all get_entry Lww.apply lww_merge_property is_empty_batch
    save_targets target_ids save_object save_meta object_to_record meta_to_record save_indexed save
    entry_record current record_ack record_within evict
first_runs = refl

handle-resent_example :
    handle still plain memory_adapter plain_journal
      (first_run.0)
      (apply_envelope envelope (bytes "v"))
    ≡ some (first_run.0, result (applied (pos 1) (pos 1)), [])
unfolding seen get works work
handle-resent_example =
    handle-resent still plain memory_adapter plain_journal memory-Reliable 0 started (first_run.0)
      books envelope envelope (bytes "u") (bytes "v") (get_scene ∷ []) (first_run.1) (first_run.2)
      (dragged, Op.set_transform (bytes "a") identity) (omega arith) (omega arith) refl drag_runs
      refl first_runs
