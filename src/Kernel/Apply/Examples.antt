-- ===== src/Kernel/Apply/Examples.antt =====
-- Operations on a scene of two triangles.
use shape_ai.Common.{◌≡◌, refl, [], ◌∷◌, map, true, false, none, some, edit_first, if◌then◌else◌}
use shape_ai.Common.Int.{pos, ◌+ℤ◌}
use shape_ai.Common.Str.{Str, bytes}
use shape_ai.Common.Result.{ok, err}
use shape_ai.Common.Map.{get, insert}
use shape_ai.Lww.{empty_store, get_entry, lww_merge_property}
use shape_ai.Lww
use shape_ai.Kernel.Model.{
  Object, ObjectScene, empty_scene, new_object, Geometry, even_odd, SubPath, corner,
}
use shape_ai.Common.{remove_first}
use shape_ai.Fractional.{
  check_digits, get_integer_length, get_integer_part, validate_integer, validate_order_key,
}
use shape_ai.Fractional.Digits.{digit_at, digit_index}
use shape_ai.Fractional.Generate.{generate_key_between, key_after}
use shape_ai.Fractional.Integer.Step.{
  increment_digit, increment_digits, increment_head, increment_integer,
}
use shape_ai.Kernel.Merge.{apply_merge, check_ids, merge_into}
use shape_ai.Kernel.Split.{
  apply_split, check_new_ids, order_keys, peeled_contours, rehome_peer, shrink_source,
}
use shape_ai.Kernel.Op
use shape_ai.Kernel.Op.{ObjectOp, ops_of}
use shape_ai.Kernel.Edit
use shape_ai.Kernel.Edit.{Applied, edit_object, duplicate_id}
use shape_ai.Kernel.Apply.{
  Affine, Store, apply_inner, apply_ops, apply_object_op, apply_object_op_lww, is_stale, mark_all,
  touched_properties, sat_i64,
}
use shape_ai.Kernel.Apply.Restores.{IsFieldOp, AreFieldOps, inverse_restores}
use shape_ai.Kernel.Apply.Writes.{names, WritesProperty, unwritten}
use shape_ai.Kernel.Apply.Gate.{marker, gate_applies, gate_replay}
use shape_ai.Kernel.Apply.Ids.{UniqueIds}
use shape_ai.Kernel.Apply.Unique.{SplitsDistinct, apply_object_op-UniqueIds}
use shape_ai.Common.{Bool-cases, inl, inr, ◌==◌}
use shape_ai.Common.Str.{str_key}
use shape_ai.Kernel.Apply.Forest.{IsForest, under, rooted, reparent-IsForest}

-- Geometry that is never turned.
abbrev still : Affine
still = record { canonicalize_orientation = λ t g. none; rehome_anchor_local = λ old new at. at }

abbrev triangle : SubPath
triangle = record {
  closed = true;
  nodes = corner (pos 0) (pos 0) ∷ corner (pos 8) (pos 0) ∷ corner (pos 0) (pos 8) ∷ [];
}

abbrev outline : Geometry
outline = record {
  path_string = bytes "M 0 0 L 8 0 L 0 8 Z";
  fill_rule = even_odd;
  subpaths = triangle ∷ [];
}

abbrev scene : ObjectScene
scene = record empty_scene {
  objects =
      new_object (bytes "a") (bytes "a0") outline
      ∷ new_object (bytes "b") (bytes "a1") outline
      ∷ [];
}

abbrev drag : ObjectOp
drag =
    Op.batch
      (ops_of (Op.reorder (bytes "a") (bytes "a2") ∷ Op.set_tags (bytes "a") (bytes "t" ∷ []) ∷ []))

abbrev dragged : ObjectScene
dragged = record scene {
  objects =
      record (new_object (bytes "a") (bytes "a2") outline) { tags = bytes "t" ∷ [] }
      ∷ new_object (bytes "b") (bytes "a1") outline
      ∷ [];
}

abbrev undrag : ObjectOp
undrag = Op.batch (ops_of (Op.set_tags (bytes "a") [] ∷ Op.reorder (bytes "a") (bytes "a0") ∷ []))

drag_runs : apply_inner still scene drag ≡ ok (dragged, undrag)
unfolding apply_inner apply_ops Edit.reorder Edit.set_tags edit_object edit_first
drag_runs = refl

inverse_restores_example :
    (again : ObjectOp) × (apply_inner still dragged undrag ≡ ok (scene, again))
unfolding IsFieldOp AreFieldOps
inverse_restores_example = inverse_restores still drag scene dragged undrag (tt, (tt, tt)) drag_runs

abbrev move : ObjectOp
move = Op.reorder (bytes "a") (bytes "a2")

abbrev moved : ObjectScene
moved = record scene {
  scene_version = pos 1;
  objects =
      new_object (bytes "a") (bytes "a2") outline
      ∷ new_object (bytes "b") (bytes "a1") outline
      ∷ [];
}

abbrev unmove : ObjectOp
unmove = Op.reorder (bytes "a") (bytes "a0")

abbrev no_writes : Store
no_writes = empty_store

abbrev one_write : Store
one_write = record { objects = (bytes "a", (bytes "order", marker (pos 7)) ∷ []) ∷ [] }

move_is_fresh : is_stale no_writes (sat_i64 7) (touched_properties move) ≡ false
unfolding is_stale touched_properties get_entry get
move_is_fresh = refl

move_runs : apply_object_op_lww still scene no_writes move 7 ≡ ok (moved, one_write, unmove)
unfolding apply_object_op_lww apply_object_op apply_inner Edit.reorder edit_object edit_first
    is_stale touched_properties mark_all get_entry get insert Lww.apply lww_merge_property ◌+ℤ◌
move_runs = refl

gate_applies_example :
    (apply_object_op still scene move ≡ ok (moved, unmove))
    × ((o p : Str)
        → get_entry one_write o p ≡ (
            if names (touched_properties move) o p
            then some (marker (sat_i64 7))
            else get_entry no_writes o p))
    × (map (unwritten (touched_properties move)) moved.objects
        ≡ map (unwritten (touched_properties move)) scene.objects)
unfolding WritesProperty
gate_applies_example =
    gate_applies still scene moved no_writes one_write move unmove 7 tt move_is_fresh move_runs

gate_replay_example :
    apply_object_op_lww still moved one_write move 7 ≡ ok (moved, one_write, Edit.no_change)
unfolding WritesProperty
gate_replay_example = gate_replay still scene moved no_writes one_write move unmove 7 tt move_runs

-- Two triangles in one object, which a split takes apart.
abbrev pair_scene : ObjectScene
pair_scene = record scene {
  objects =
      new_object (bytes "a") (bytes "a0") (record outline { subpaths = triangle ∷ triangle ∷ [] })
      ∷ new_object (bytes "b") (bytes "a1") outline
      ∷ [];
}

abbrev take_apart : ObjectOp
take_apart = Op.batch (
    ops_of (
      Op.split (bytes "a") (bytes "x" ∷ bytes "y" ∷ []) []
      ∷ Op.merge (bytes "x" ∷ bytes "b" ∷ []) none
      ∷ []))

abbrev ended : Applied → ObjectScene × ObjectOp
ended (ok p) = p
ended (err e) = (pair_scene, Edit.no_change)

abbrev apart : ObjectScene × ObjectOp
apart = ended (apply_object_op still pair_scene take_apart)

take_apart_runs : apply_object_op still pair_scene take_apart ≡ ok apart
unfolding apply_object_op apply_inner apply_ops apply_split peeled_contours check_new_ids order_keys
    generate_key_between validate_order_key get_integer_part get_integer_length check_digits
    digit_index key_after increment_integer validate_integer increment_digits increment_digit
    increment_head digit_at apply_merge merge_into check_ids shrink_source remove_first rehome_peer
    edit_first
take_apart_runs = refl

apply_object_op-UniqueIds_example : UniqueIds apart.0.objects
unfolding SplitsDistinct
apply_object_op-UniqueIds_example =
    apply_object_op-UniqueIds still take_apart pair_scene apart.0 apart.1
      (((refl, (refl, tt)), (tt, tt))) (refl, (refl, tt)) take_apart_runs

split_then_merge : map (λ (o : Object). o.id) apart.0.objects ≡ bytes "x" ∷ bytes "y" ∷ []
unfolding apply_object_op apply_inner apply_ops apply_split peeled_contours check_new_ids order_keys
    generate_key_between validate_order_key get_integer_part get_integer_length check_digits
    digit_index key_after increment_integer validate_integer increment_digits increment_digit
    increment_head digit_at apply_merge merge_into check_ids shrink_source remove_first rehome_peer
    edit_first
split_then_merge = refl

scene-IsForest : IsForest scene
scene-IsForest x = under x (elim (Bool-cases (bytes "a" == x)) [
  | inl first ↦ rw first rooted
  | inr other ↦ rw other (elim (Bool-cases (bytes "b" == x)) [
    | inl second ↦ rw second rooted
    | inr none_there ↦ rw none_there rooted
  ])
])

abbrev nested : ObjectScene
nested = record scene {
  objects =
      new_object (bytes "a") (bytes "a0") outline
      ∷ record (new_object (bytes "b") (bytes "a2") outline) { parent = some (bytes "a") }
      ∷ [];
}

abbrev unnest : ObjectOp
unnest = Op.reparent (bytes "b") none (bytes "a1")

nest_runs : Edit.reparent scene (bytes "b") (some (bytes "a")) (bytes "a2") ≡ ok (nested, unnest)
unfolding Edit.reparent Edit.would_cycle Edit.walk_up edit_object edit_first
nest_runs = refl

reparent-IsForest_example : IsForest nested
reparent-IsForest_example =
    reparent-IsForest scene nested (bytes "b") (some (bytes "a")) (bytes "a2") unnest scene-IsForest
      nest_runs
