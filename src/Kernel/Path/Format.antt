-- ===== src/Kernel/Path/Format.antt =====
-- crates/scene-core/src/object/kernel/model.rs, module path_string: its errors, and the text of subpaths.
use shape_ai.Common.{List, [], ◌∷◌, ◌++◌, Bool, true, false, Option, none, some}
use shape_ai.Common.Int.{ℤ, pos, ◌+ℤ◌, wrap_i32}
use shape_ai.Common.Str.{Str, bytes, str_key}
use shape_ai.Common.Decimal.{display}
use shape_ai.Kernel.Model.{HandlePoint, PathNode, SubPath}

pub data PathError : Type 0 where
  unexpected_end l_before_m c_before_m z_before_m out_of_rounds : PathError
  bad_coordinate unsupported_command : (token : Str) → PathError

-- Formatting.

abbrev pub handle_dx : Option HandlePoint → ℤ
handle_dx none = pos 0
handle_dx (some h) = h.dx

abbrev pub handle_dy : Option HandlePoint → ℤ
handle_dy none = pos 0
handle_dy (some h) = h.dy

-- Numbers, each behind a space.
unfoldable pub spaced : List ℤ → Str
spaced [] = []
spaced (z ∷ l) = b' ' ∷ display z ++ spaced l

abbrev pub curve : PathNode → PathNode → Str
curve from to =
    bytes " C"
    ++ spaced (
        wrap_i32 (from.x +ℤ handle_dx from.out_handle)
        ∷ wrap_i32 (from.y +ℤ handle_dy from.out_handle)
        ∷ wrap_i32 (to.x +ℤ handle_dx to.in_handle)
        ∷ wrap_i32 (to.y +ℤ handle_dy to.in_handle)
        ∷ to.x
        ∷ to.y
        ∷ [])

abbrev segment_by : Option HandlePoint → Option HandlePoint → PathNode → PathNode → Str
segment_by none none from to = bytes " L" ++ spaced (to.x ∷ to.y ∷ [])
segment_by _ _ from to = curve from to

-- What `emit_segment` appends.
unfoldable pub emit_segment : PathNode → PathNode → Str
emit_segment from to = segment_by from.out_handle to.in_handle from to

-- The segments of the windows of two nodes.
unfoldable pub emit_segments : PathNode → List PathNode → Str
emit_segments from [] = []
emit_segments from (to ∷ nodes) = emit_segment from to ++ emit_segments to nodes

abbrev pub last_node : PathNode → List PathNode → PathNode
last_node first [] = first
last_node first (node ∷ nodes) = last_node node nodes

abbrev closing_by : Option HandlePoint → Option HandlePoint → PathNode → PathNode → Str
closing_by none none last first = []
closing_by _ _ last first = emit_segment last first

-- The closing segment carries its curve when the endpoints define handles.
unfoldable pub closing : Bool → PathNode → PathNode → Str
closing false last first = []
closing true last first = closing_by last.out_handle first.in_handle last first ++ bytes " Z"

-- A subpath with the node `first`.
unfoldable pub emit_subpath : Bool → PathNode → List PathNode → Str
emit_subpath closed first nodes =
    bytes "M"
    ++ spaced (first.x ∷ first.y ∷ [])
    ++ emit_segments first nodes
    ++ closing closed (last_node first nodes) first

abbrev pub separator : Str → Str
separator [] = []
separator (c ∷ s) = b' ' ∷ []

abbrev emit_nodes : Str → Bool → List PathNode → Str
emit_nodes out closed [] = out
emit_nodes out closed (first ∷ nodes) = out ++ separator out ++ emit_subpath closed first nodes

unfoldable pub serialize_onto : Str → List SubPath → Str
serialize_onto out [] = out
serialize_onto out (sp ∷ subpaths) = serialize_onto (emit_nodes out sp.closed sp.nodes) subpaths

abbrev pub serialize : List SubPath → Str
serialize subpaths = serialize_onto [] subpaths

-- Parsing.
