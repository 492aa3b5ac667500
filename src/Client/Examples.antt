-- ===== src/Client/Examples.antt =====
-- A client that drags an object, hears from others, and reconnects.
use shape_ai.Common.{◌≡◌, refl, edit_first, none, some, List, [], ◌∷◌, false, inl}
use shape_ai.Common.Int.{ℤ, pos, ltb_ℤ, ◌+ℤ◌}
use shape_ai.Common.Str.{bytes, str_key}
use shape_ai.Common.Decimal.{display, decimal, emit}
use shape_ai.Common.Map
use shape_ai.Common.Map.{insert}
use shape_ai.Common.Result.{ok}
use shape_ai.Kernel.Model.{
  ObjectScene, empty_scene, new_object, Geometry, even_odd, translate, identity,
}
use shape_ai.Kernel.Op
use shape_ai.Kernel.Op.{ObjectOp, is_empty_batch}
use shape_ai.Kernel.Edit
use shape_ai.Kernel.Edit.{edit_object}
use shape_ai.Kernel.Apply.{Affine, apply_object_op, apply_inner}
use shape_ai.Client.Wire.{OpId, WireOp, Serde, op_id_key}
use shape_ai.Client.Outbox.{
  InMemoryOutboxStore, empty_outbox, in_memory, append, remove, next_local_seq, all_entries,
  sort_by_seq, insert_by_seq, reseed, max_seq,
}
use shape_ai.Client.Outbox.InMemory.{in_memory_laws}
use shape_ai.Client.Engine.{
  Engine, AuthorResult, new, author, on_ack, wire_op, take_ownership, enqueue, owned_keys,
  release_all, release_ownership, flush, reconcile_snapshot, reseed_outbox,
}
use shape_ai.Client.Engine.Events.{Event, authors, acks, reseeds, flushes, run, run_all}
use shape_ai.Client.Engine.History.{Unanswered, writers, unanswered, note, note_all}
use shape_ai.Client.Engine.Waiting.{Sends, author-Sends}

abbrev still : Affine
still = record { canonicalize_orientation = λ t g. none; rehome_anchor_local = λ old new at. at }

-- An operation is its own JSON.
abbrev plain : Serde
plain = record { Json = ObjectOp; to_value = λ op. op; from_value = some; kind_tag = λ op. [] }

abbrev blank : Geometry
blank = record { path_string = []; fill_rule = even_odd; subpaths = [] }

abbrev scene : ObjectScene
scene = record empty_scene { objects = new_object (bytes "a") (bytes "a0") blank ∷ [] }

abbrev drag : ObjectOp
drag = Op.set_transform (bytes "a") (translate 1 2)

abbrev fresh : Engine ObjectOp (InMemoryOutboxStore ObjectOp)
fresh = new scene (bytes "c") empty_outbox none

abbrev drag_on : ObjectOp
drag_on = Op.set_transform (bytes "a") (translate 2 2)

abbrev row : ObjectOp → ℤ → WireOp ObjectOp
row op n = wire_op still plain in_memory op (bytes "c") n (pos 0) []

-- Two drags, an answer to the first, and the row of the second read back.
abbrev drag_twice : List (Event ObjectOp)
drag_twice =
    authors drag []
    ∷ authors drag_on []
    ∷ acks (record { client_id = bytes "c"; local_seq = pos 1 } ∷ []) none
    ∷ reseeds (row drag_on (pos 2) ∷ [])
    ∷ []

abbrev dragged : Engine ObjectOp (InMemoryOutboxStore ObjectOp)
dragged = run_all still plain in_memory fresh drag_twice

abbrev waiting : Unanswered
waiting = unanswered still plain in_memory scene (bytes "c") empty_outbox none drag_twice

one_drag_waits : writers waiting (bytes "a:transform") ≡ 1
unfolding note_all note run author on_ack apply_object_op apply_inner Edit.set_transform edit_object
    edit_first is_empty_batch append remove next_local_seq wire_op take_ownership enqueue owned_keys
    release_all release_ownership op_id_key display decimal emit insert Map.remove ◌+ℤ◌
one_drag_waits = refl

abbrev first_id : OpId
first_id = record { client_id = bytes "c"; local_seq = pos 1 }

abbrev drag_result : AuthorResult
drag_result = record {
  errors = [];
  op_id = some first_id;
  inverse = some (Op.set_transform (bytes "a") identity);
}

drag_is_authored : (author still plain in_memory fresh drag []).1 ≡ ok drag_result
unfolding author apply_object_op apply_inner Edit.set_transform edit_object edit_first
    is_empty_batch append next_local_seq wire_op take_ownership enqueue ◌+ℤ◌
drag_is_authored = refl

-- The shell reads the row back from its durable store.
abbrev read_back : List (Event ObjectOp)
read_back = flushes ∷ reseeds (row drag (pos 1) ∷ []) ∷ []

abbrev after_drag : Engine ObjectOp (InMemoryOutboxStore ObjectOp)
after_drag = run_all still plain in_memory (author still plain in_memory fresh drag []).0 read_back

welcome_is_fresh : ltb_ℤ scene.scene_version after_drag.base_revision ≡ false
unfolding run_all run flush reseed_outbox reseed max_seq author apply_object_op apply_inner
    Edit.set_transform edit_object edit_first is_empty_batch append next_local_seq wire_op
    take_ownership enqueue ◌+ℤ◌
welcome_is_fresh = refl

welcome_reads : (reconcile_snapshot still plain in_memory after_drag scene).1 ≡ ok tt
unfolding run_all run flush reseed_outbox reseed max_seq author apply_object_op apply_inner
    Edit.set_transform edit_object edit_first is_empty_batch append next_local_seq wire_op
    take_ownership enqueue ◌+ℤ◌ reconcile_snapshot all_entries sort_by_seq insert_by_seq
welcome_reads = refl

author-Sends_example :
    ((row drag (pos 1)).op_id ≡ first_id)
    × Sends still plain in_memory in_memory_laws
        (row drag (pos 1))
        after_drag
        (reconcile_snapshot still plain in_memory after_drag scene).0
author-Sends_example =
    author-Sends still plain in_memory in_memory_laws fresh drag [] drag_result first_id read_back
      scene drag_is_authored refl (tt, (inl refl, tt)) welcome_is_fresh welcome_reads
