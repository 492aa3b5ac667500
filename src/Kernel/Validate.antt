-- ===== src/Kernel/Validate.antt =====
-- crates/scene-core/src/object/kernel/validate.rs: the structural validators.
pub mod Laws
mod Examples
use shape_ai.Common.{
  ℕ, zero, suc, ◌+◌, List, [], ◌∷◌, ◌++◌, Bool, true, false, not, ◌&&◌, ◌||◌, Option, none, some,
  ltb, if◌then◌else◌, any, is_empty, length, ◌==◌,
}
use shape_ai.Common.Int.{ℤ, pos, ltb_ℤ, leb_ℤ, sat_i32}
use shape_ai.Common.Str.{Str, str_key}
use shape_ai.Common.Map.{Map, get, insert}
use shape_ai.Common.Result.{Result, ok, err, ◌>>◌, fail_if}
use shape_ai.Kernel.Model.{
  Object, ObjectScene, Geometry, SubPath, Sizing, AxisSizing, fixed, Layout, Lanes, count, Anchor,
  Comment, CommentAnchor, node,
}

pub data ValidationError : Type 0 where
  empty_geometry zero_lanes : ValidationError
  degenerate_subpath : (subpath : ℤ) (closed : Bool) (nodes : ℤ) → ValidationError
  parent_cycle : (id : Str) → ValidationError
  missing_anchor_target : (id target : Str) → ValidationError
  anchor_node_out_of_range : (id : Str) (node_index node_count : ℤ) → ValidationError
  comment_node_out_of_range : (id comment_id : Str) (node_index node_count : ℤ) → ValidationError
  negative_sizing : (value : ℤ) → ValidationError

abbrev validate_axis : AxisSizing → Result ValidationError (Unit {0})
validate_axis (fixed value) = fail_if (ltb_ℤ value (pos 0)) (negative_sizing value)
validate_axis other = ok tt

unfoldable pub validate_sizing : Sizing → Result ValidationError (Unit {0})
validate_sizing sizing = do validate_axis sizing.w; validate_axis sizing.h

abbrev validate_lanes : Lanes → Result ValidationError (Unit {0})
validate_lanes (count value) = fail_if (ltb value 1) zero_lanes
validate_lanes other = ok tt

unfoldable pub validate_layout : Layout → Result ValidationError (Unit {0})
validate_layout layout = validate_lanes layout.lanes

unfoldable pub total_nodes : List SubPath → ℕ
total_nodes [] = 0
total_nodes (sp ∷ subpaths) = length sp.nodes + total_nodes subpaths

abbrev pub flattened_node_count : Geometry → ℤ
flattened_node_count geometry = sat_i32 (total_nodes geometry.subpaths)

abbrev pub min_nodes : Bool → ℕ
min_nodes closed = if closed then 3 else 2

-- The loop over the subpaths, `i` being the index of the first.
unfoldable pub validate_subpaths : ℕ → List SubPath → Result ValidationError (Unit {0})
validate_subpaths i [] = ok tt
validate_subpaths i (sp ∷ subpaths) = do
  fail_if (not (is_empty sp.nodes) && ltb (length sp.nodes) (min_nodes sp.closed))
      (degenerate_subpath (sat_i32 i) sp.closed (sat_i32 (length sp.nodes)))
  validate_subpaths (suc i) subpaths

abbrev pub has_drawable : List SubPath → Bool
has_drawable subpaths = any (λ (sp : SubPath). not (is_empty sp.nodes)) subpaths

unfoldable pub validate_geometry : Geometry → Result ValidationError (Unit {0})
validate_geometry geometry = do
  fail_if (not (has_drawable geometry.subpaths)) empty_geometry
  validate_subpaths 0 geometry.subpaths

-- `parent_of`: where an id occurs twice the last object counts.
unfoldable pub parents_onto : Map Str (Option Str) → List Object → Map Str (Option Str)
parents_onto m [] = m
parents_onto m (o ∷ objects) = parents_onto (insert o.id o.parent m) objects

abbrev pub parent_of : List Object → Map Str (Option Str)
parent_of objects = parents_onto [] objects

abbrev flatten : Option (Option Str) → Option Str
flatten none = none
flatten (some p) = p

abbrev pub next_parent : Map Str (Option Str) → Str → Option Str
next_parent m id = flatten (get id m)

-- The walk from `cursor`; true where it meets an id that it has seen. Each round sees a new id, and
-- all of them but one have an object: one more round than there are objects, plus one, is enough.
unfoldable pub walk : ℕ → Map Str (Option Str) → List Str → Option Str → Bool
walk rounds m seen none = false
walk zero m seen (some p) = true
walk (suc rounds) m seen (some p) =
    let rest = walk rounds m (p ∷ seen) (next_parent m p) in
    if any (λ s. s == p) seen then true else rest

unfoldable pub check_cycles :
    Map Str (Option Str) → ℕ → List Object → Result ValidationError (Unit {0})
check_cycles m rounds [] = ok tt
check_cycles m rounds (o ∷ objects) = do
  fail_if (walk rounds m (o.id ∷ []) (next_parent m o.id)) (parent_cycle o.id)
  check_cycles m rounds objects

unfoldable pub validate_no_parent_cycle : ObjectScene → Result ValidationError (Unit {0})
validate_no_parent_cycle scene =
    check_cycles (parent_of scene.objects) (length scene.objects + 2) scene.objects

abbrev pub out_of_range : ℤ → ℤ → Bool
out_of_range node_index node_count = ltb_ℤ node_index (pos 0) || leb_ℤ node_count node_index

unfoldable pub check_anchors :
    ObjectScene → Object → ℤ → List Anchor → Result ValidationError (Unit {0})
check_anchors scene o node_count [] = ok tt
check_anchors scene o node_count (a ∷ anchors) = do
  fail_if (not (any (λ (x : Object). x.id == a.target) scene.objects))
      (missing_anchor_target o.id a.target)
  fail_if (out_of_range a.node_index node_count)
      (anchor_node_out_of_range o.id a.node_index node_count)
  check_anchors scene o node_count anchors

unfoldable pub check_targets : ObjectScene → List Object → Result ValidationError (Unit {0})
check_targets scene [] = ok tt
check_targets scene (o ∷ objects) = do
  check_anchors scene o (flattened_node_count o.geometry) o.anchors
  check_targets scene objects

unfoldable pub validate_anchor_targets : ObjectScene → Result ValidationError (Unit {0})
validate_anchor_targets scene = check_targets scene scene.objects

abbrev pub comment_outside : Option CommentAnchor → ℤ → Bool
comment_outside (some (node node_index)) node_count = out_of_range node_index node_count
comment_outside _ node_count = false

abbrev comment_index : Option CommentAnchor → ℤ
comment_index (some (node node_index)) = node_index
comment_index _ = pos 0

unfoldable pub check_comments : Object → ℤ → List Comment → Result ValidationError (Unit {0})
check_comments o node_count [] = ok tt
check_comments o node_count (c ∷ comments) = do
  fail_if (comment_outside c.at node_count)
      (comment_node_out_of_range o.id c.id (comment_index c.at) node_count)
  check_comments o node_count comments

unfoldable pub validate_object : Object → Result ValidationError (Unit {0})
validate_object o = do
  validate_geometry o.geometry
  check_comments o (flattened_node_count o.geometry) o.comments

abbrev pub errors_of : Result ValidationError (Unit {0}) → List ValidationError
errors_of (ok u) = []
errors_of (err e) = e ∷ []

unfoldable pub object_errors : List Object → List ValidationError
object_errors [] = []
object_errors (o ∷ objects) = errors_of (validate_object o) ++ object_errors objects

-- All defects.
unfoldable pub validate_scene : ObjectScene → List ValidationError
validate_scene scene =
    object_errors scene.objects
    ++ errors_of (validate_no_parent_cycle scene)
    ++ errors_of (validate_anchor_targets scene)
