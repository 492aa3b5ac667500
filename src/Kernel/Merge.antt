-- ===== src/Kernel/Merge.antt =====
-- crates/scene-core/src/object/kernel/apply.rs: `apply_merge`.
use shape_ai.Common.{
  List, [], ◌∷◌, ◌++◌, map, not, ◌||◌, Option, none, some, if◌then◌else◌, filter, ◌==◌, edit_first,
}
use shape_ai.Common.Int.{ℤ, pos, saturating_add}
use shape_ai.Common.Str.{str_key}
use shape_ai.Common.Map.{Map, get, insert}
use shape_ai.Common.Result.{Result, ok, err, ◌>>=◌, ◌>>◌, fail_if}
use shape_ai.Kernel.Model.{ObjectId, Object, ObjectScene, SubPath, Anchor, get_object}
use shape_ai.Kernel.Op
use shape_ai.Kernel.Op.{ObjectOp, ops_of}
use shape_ai.Kernel.Path.{from_subpaths}
use shape_ai.Kernel.Edit.{
  ApplyError, duplicate_id, bad_geometry, no_ids, not_among_merged, Applied, index_of, has_id,
}
use shape_ai.Kernel.Split.{has, add_nodes, capture_peer_anchors, restore_op}

-- `into`, or else the first id.
abbrev pub survivor : Option ObjectId → ObjectId → ObjectId
survivor none first = first
survivor (some into) first = into

-- Every id exists, and none is listed twice.
unfoldable pub check_ids :
    ObjectScene → List ObjectId → List ObjectId → Result ApplyError (Unit {0})
check_ids scene seen [] = ok tt
check_ids scene seen (mid ∷ ids) = do
  o ← index_of scene mid
  fail_if (has seen mid) (duplicate_id mid)
  check_ids scene (seen ++ mid ∷ []) ids

abbrev pub merge_order : ObjectId → List ObjectId → List ObjectId
merge_order survivor_id ids = survivor_id ∷ filter (λ mid. not (mid == survivor_id)) ids

-- The objects of ids that were checked.
unfoldable pub objects_of : ObjectScene → List ObjectId → List Object
objects_of scene [] = []
objects_of scene (mid ∷ ids) =
    let rest = objects_of scene ids in
    elim (get_object scene mid) [ none ↦ rest | some o ↦ o ∷ rest ]

unfoldable pub nodes_onto : ℤ → List SubPath → ℤ
nodes_onto acc [] = acc
nodes_onto acc (sp ∷ subpaths) = nodes_onto (add_nodes acc sp) subpaths

-- `base_of`: where each merged object's nodes begin.
unfoldable pub bases : ℤ → Map ObjectId ℤ → List Object → Map ObjectId ℤ
bases acc m [] = m
bases acc m (o ∷ objects) = bases (nodes_onto acc o.geometry.subpaths) (insert o.id acc m) objects

abbrev pub combined : List Object → List SubPath
combined [] = []
combined (o ∷ objects) = o.geometry.subpaths ++ combined objects

abbrev shift_by : ObjectId → Anchor → Option ℤ → Anchor
shift_by survivor_id a none = a
shift_by survivor_id a (some base) = record a {
  node_index = saturating_add a.node_index base;
  target = survivor_id;
}

unfoldable pub shift_anchor : ObjectId → Map ObjectId ℤ → Anchor → Anchor
shift_anchor survivor_id base_of a = shift_by survivor_id a (get a.target base_of)

abbrev pub shift_anchors : ObjectId → Map ObjectId ℤ → Object → Object
shift_anchors survivor_id base_of peer = record peer {
  anchors = map (shift_anchor survivor_id base_of) peer.anchors;
}

unfoldable pub merge_inverse : ObjectId → List Object → List (ObjectId × List Anchor) → ObjectOp
merge_inverse survivor_id originals peer_before = Op.batch (
    ops_of (
      Op.delete survivor_id ∷ map (λ o. Op.insert_object o) originals
      ++ map restore_op peer_before))

-- The merge into `survivor_id`, after the first two checks.
unfoldable pub merge_into : ObjectScene → List ObjectId → ObjectId → Applied
merge_into scene ids survivor_id = do
  check_ids scene [] ids
  s ← index_of scene survivor_id
  let merged = objects_of scene (merge_order survivor_id ids)
  let kept = filter (λ (o : Object). o.id == survivor_id || not (has ids o.id)) scene.objects
  let geometry = from_subpaths (combined merged) s.geometry.fill_rule
  ok (
    record scene {
      objects =
          map (shift_anchors survivor_id (bases (pos 0) [] merged))
            (edit_first (has_id survivor_id) (λ o. record o { geometry = geometry }) kept);
    },
    merge_inverse survivor_id (objects_of scene ids) (capture_peer_anchors scene.objects ids),
  )

unfoldable pub apply_merge : ObjectScene → List ObjectId → Option ObjectId → Applied
apply_merge scene [] into = err (bad_geometry no_ids)
apply_merge scene (first ∷ ids) into =
    let survivor_id = survivor into first in
    let merged = merge_into scene (first ∷ ids) survivor_id in
    if has (first ∷ ids) survivor_id
    then merged
    else err (bad_geometry (not_among_merged survivor_id))
