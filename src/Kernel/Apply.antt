-- ===== src/Kernel/Apply.antt =====
-- crates/scene-core/src/object/kernel/apply.rs: the application of any operation, on its own and
-- behind the per-property gate of the last-writer-wins store. The two functions of
-- crates/scene-core/src/object/binding/affine.rs that it calls compute with f64 and are parameters.
pub mod Restores
pub mod Writes
pub mod Gate
pub mod Ids
pub mod Unique
pub mod Forest
pub mod Ends
pub mod Rest
pub mod Local
mod Examples
use shape_ai.Common.{
  ℕ, zero, suc, ◌+◌, List, [], ◌∷◌, ◌++◌, map, Bool, true, false, ◌||◌, Option, none, some,
  if◌then◌else◌, ◌==◌, leb,
}
use shape_ai.Common.Int.{ℤ, pos, ◌+ℤ◌, leb_ℤ}
use shape_ai.Common.Str.{Str, bytes, str_key}
use shape_ai.Common.Result.{Result, ok, err, ◌>>=◌, ◌>>◌}
use shape_ai.Lww
use shape_ai.Lww.{LwwEntry, PropertyStore, get_entry}
use shape_ai.Kernel.Model.{
  ObjectId, Object, ObjectScene, Geometry, Transform3x3, Anchor, LocalPoint,
}
use shape_ai.Kernel.Op
use shape_ai.Kernel.Op.{ObjectOp, Ops, ops_of, nil, cons}
use shape_ai.Kernel.Edit.{
  ApplyError, Applied, index_of, edited, checked_geometry, insert_object, delete, edit_geometry,
  set_transform, set_style, set_text, set_anchor, set_layout, set_clip, set_sizing, set_meta,
  add_comment, set_comments, set_tags, reorder, reparent, no_change,
}
use shape_ai.Kernel.Split.{apply_split, capture_peer_anchors, restore_op}
use shape_ai.Kernel.Merge.{apply_merge}

-- The geometry that an application uses.
pub record Affine : Type 0 where
  pub canonicalize_orientation : Transform3x3 → Geometry → Option (Transform3x3 × Geometry)
  pub rehome_anchor_local : Transform3x3 → Transform3x3 → LocalPoint → LocalPoint

-- The null marker that the store of the gate holds.
pub data Null : Type 0 where
  null : Null

abbrev pub Store : Type 0
Store = PropertyStore Null

-- The properties that an operation writes; none for those that span objects.
abbrev name_if {ℓ} : {A : Type ℓ} → Option A → ObjectId → Str → List (ObjectId × Str)
name_if none id property = []
name_if (some edit) id property = (id, property) ∷ []

unfoldable pub touched_properties : ObjectOp → List (ObjectId × Str)
touched_properties (Op.edit_geometry id _) = (id, bytes "geometry") ∷ []
touched_properties (Op.set_transform id _) = (id, bytes "transform") ∷ []
touched_properties (Op.set_style id fill stroke) =
    name_if fill id (bytes "fill") ++ name_if stroke id (bytes "stroke")
touched_properties (Op.set_text id _) = (id, bytes "text") ∷ []
touched_properties (Op.set_anchor id _) = (id, bytes "anchors") ∷ []
touched_properties (Op.set_layout id _) = (id, bytes "layout") ∷ []
touched_properties (Op.set_clip id _) = (id, bytes "clip") ∷ []
touched_properties (Op.set_sizing id _) = (id, bytes "sizing") ∷ []
touched_properties (Op.set_meta id name hidden locked) =
    name_if name id (bytes "name")
    ++ name_if hidden id (bytes "hidden")
    ++ name_if locked id (bytes "locked")
touched_properties (Op.add_comment id _) = (id, bytes "comments") ∷ []
touched_properties (Op.set_comments id _) = (id, bytes "comments") ∷ []
touched_properties (Op.set_tags id _) = (id, bytes "tags") ∷ []
touched_properties (Op.reparent id _ _) = (id, bytes "parent") ∷ (id, bytes "order") ∷ []
touched_properties (Op.reorder id _) = (id, bytes "order") ∷ []
touched_properties (Op.insert_object _) = []
touched_properties (Op.delete _) = []
touched_properties (Op.split _ _ _) = []
touched_properties (Op.merge _ _) = []
touched_properties (Op.canonicalize _) = []
touched_properties (Op.batch _) = []

-- `i64::try_from(seq).unwrap_or(i64::MAX)`.
abbrev pub sat_i64 : ℕ → ℤ
sat_i64 seq = if leb seq 9223372036854775807 then pos seq else pos 9223372036854775807

abbrev pub held_back : ℤ → Option (LwwEntry Null) → Bool
held_back seq none = false
held_back seq (some entry) = leb_ℤ seq entry.seq

-- A property that holds a winner of this or a later arrival.
unfoldable pub is_stale : Store → ℤ → List (ObjectId × Str) → Bool
is_stale store seq [] = false
is_stale store seq ((id, property) ∷ props) =
    held_back seq (get_entry store id property) || is_stale store seq props

unfoldable pub mark_all : Store → ℤ → List (ObjectId × Str) → Store
mark_all store seq [] = store
mark_all store seq ((id, property) ∷ props) =
    mark_all (Lww.apply store id property null seq).0 seq props

module _ (affine : Affine) where
  unfoldable pub rehome_onto : ObjectId → Transform3x3 → Transform3x3 → Anchor → Anchor
  rehome_onto id old new a =
      if a.target == id then record a { at = affine.rehome_anchor_local old new a.at } else a

  unfoldable pub rehome_peers : ObjectId → Transform3x3 → Transform3x3 → Object → Object
  rehome_peers id old new peer =
      if peer.id == id
      then peer
      else record peer { anchors = map (rehome_onto id old new) peer.anchors }

  abbrev pub canonicalize_to :
      ObjectScene → ObjectId → Object → Option (Transform3x3 × Geometry) → Applied
  canonicalize_to scene id o none = ok (scene, no_change)
  canonicalize_to scene id o (some (new_transform, new_geometry)) = do
    parsed ← checked_geometry new_geometry
    let turned = edited scene id (λ p. record p { geometry = parsed; transform = new_transform })
    ok (
      record turned { objects = map (rehome_peers id o.transform new_transform) turned.objects },
      Op.batch (
          ops_of (
            Op.edit_geometry id o.geometry
            ∷ Op.set_transform id o.transform
            ∷ map restore_op (capture_peer_anchors scene.objects (id ∷ [])))),
    )

  unfoldable pub canonicalize : ObjectScene → ObjectId → Applied
  canonicalize scene id = do
    o ← index_of scene id
    canonicalize_to scene id o (affine.canonicalize_orientation o.transform o.geometry)

  -- A batch works on a copy: an error leaves the scene of the caller as it was. The inverses are
  -- collected newest first.
  unfoldable mutual
    pub apply_inner : ObjectScene → ObjectOp → Applied
    apply_inner scene (Op.insert_object object) = insert_object scene object
    apply_inner scene (Op.delete id) = delete scene id
    apply_inner scene (Op.edit_geometry id geometry) = edit_geometry scene id geometry
    apply_inner scene (Op.set_transform id transform) = set_transform scene id transform
    apply_inner scene (Op.set_style id fill stroke) = set_style scene id fill stroke
    apply_inner scene (Op.set_text id text) = set_text scene id text
    apply_inner scene (Op.set_anchor id anchors) = set_anchor scene id anchors
    apply_inner scene (Op.set_layout id layout) = set_layout scene id layout
    apply_inner scene (Op.set_clip id clip) = set_clip scene id clip
    apply_inner scene (Op.set_sizing id sizing) = set_sizing scene id sizing
    apply_inner scene (Op.set_meta id name hidden locked) = set_meta scene id name hidden locked
    apply_inner scene (Op.canonicalize id) = canonicalize scene id
    apply_inner scene (Op.add_comment id comment) = add_comment scene id comment
    apply_inner scene (Op.set_comments id comments) = set_comments scene id comments
    apply_inner scene (Op.set_tags id tags) = set_tags scene id tags
    apply_inner scene (Op.reorder id order) = reorder scene id order
    apply_inner scene (Op.reparent id parent order) = reparent scene id parent order
    apply_inner scene (Op.split id new_ids contours) = apply_split scene id new_ids contours
    apply_inner scene (Op.merge ids into) = apply_merge scene ids into
    apply_inner scene (Op.batch ops) = apply_ops scene ops []

    pub apply_ops : ObjectScene → Ops → List ObjectOp → Applied
    apply_ops scene nil inverses = ok (scene, Op.batch (ops_of inverses))
    apply_ops scene (cons op ops) inverses = do
      (working, inv) ← apply_inner scene op
      apply_ops working ops (inv ∷ inverses)

  unfoldable pub apply_object_op : ObjectScene → ObjectOp → Applied
  apply_object_op scene op = do
    (applied, inverse) ← apply_inner scene op
    ok (record applied { scene_version = applied.scene_version +ℤ pos 1 }, inverse)

  -- The scene, the store and the inverse after the gate.
  unfoldable pub apply_object_op_lww :
      ObjectScene → Store → ObjectOp → ℕ → Result ApplyError (ObjectScene × Store × ObjectOp)
  apply_object_op_lww scene store op seq =
      let seq_i64 = sat_i64 seq in
      let props = touched_properties op in
      let applied = do
        (next, inverse) ← apply_object_op scene op
        ok (next, mark_all store seq_i64 props, inverse)
      in if is_stale store seq_i64 props then ok (scene, store, no_change) else applied

  -- The inverses, newest first.
  unfoldable pub apply_sequence_onto :
      ObjectScene → List ObjectOp → List ObjectOp → Result ApplyError (ObjectScene × List ObjectOp)
  apply_sequence_onto scene [] inverses = ok (scene, inverses)
  apply_sequence_onto scene (op ∷ ops) inverses = do
    (next, inverse) ← apply_object_op scene op
    apply_sequence_onto next ops (inverse ∷ inverses)

  abbrev pub apply_sequence :
      ObjectScene → List ObjectOp → Result ApplyError (ObjectScene × List ObjectOp)
  apply_sequence scene ops = apply_sequence_onto scene ops []
