-- ===== src/Kernel/Edit.antt =====
-- crates/scene-core/src/object/kernel/apply.rs: errors, and the operations that edit one object,
-- insert one or delete one. Each returns the new scene and the inverse operation.
use shape_ai.Common.{
  ℕ, zero, suc, ◌+◌, List, [], ◌∷◌, ◌++◌, map, Bool, true, false, not, Option, none, some,
  if◌then◌else◌, any, filter, length, ◌==◌, edit_first, remove_first,
}
use shape_ai.Common.Int.{ℤ}
use shape_ai.Common.Str.{Str, str_key}
use shape_ai.Common.Result.{Result, ok, err, ◌>>=◌, ◌>>◌, fail_if, ok_or}
use shape_ai.Fractional.Digits.{KeyError}
use shape_ai.Kernel.Model.{
  ObjectId, Object, ObjectScene, Geometry, Transform3x3, Fill, Stroke, Text, Anchor, Layout, Sizing,
  Comment, get_object, text_discrete,
}
use shape_ai.Kernel.Op
use shape_ai.Kernel.Op.{ObjectOp, FieldEdit, ops_of, from_option, resolve}
use shape_ai.Kernel.Path.{PathError, ensure_parsed}
use shape_ai.Kernel.Validate.{
  ValidationError, validate_geometry, validate_layout, validate_sizing, parent_cycle,
  missing_anchor_target,
}

-- Why a geometry is bad.
pub data Defect : Type 0 where
  path : PathError → Defect
  invalid : ValidationError → Defect
  contour_out_of_range duplicate_contour : ℤ → Defect
  no_contours no_ids : Defect
  id_count : (ids contours : ℕ) → Defect
  order_key : KeyError → Defect
  not_among_merged : ObjectId → Defect

-- `Unsupported` is built nowhere in the kernel.
pub data ApplyError : Type 0 where
  not_found duplicate_id cycle no_anchor_target : ObjectId → ApplyError
  bad_geometry : Defect → ApplyError
  unsupported : Str → ApplyError

unfoldable pub apply_error_from_validation : ValidationError → ApplyError
apply_error_from_validation (parent_cycle id) = cycle id
apply_error_from_validation (missing_anchor_target id target) = no_anchor_target target
apply_error_from_validation e = bad_geometry (invalid e)

abbrev pub Applied : Type 0
Applied = Result ApplyError (ObjectScene × ObjectOp)

-- `map_err`.
abbrev pub map_err {ℓ κ μ} :
    {E : Type ℓ} {F : Type κ} {A : Type μ} → (E → F) → Result E A → Result F A
map_err f (ok a) = ok a
map_err f (err e) = err (f e)

abbrev pub no_change : ObjectOp
no_change = Op.batch Op.nil

abbrev pub has_id : ObjectId → Object → Bool
has_id id o = o.id == id

-- `index_of`, with the object that stands there: the first one with the id.
abbrev pub index_of : ObjectScene → ObjectId → Result ApplyError Object
index_of scene id = ok_or (get_object scene id) (not_found id)

abbrev pub edited : ObjectScene → ObjectId → (Object → Object) → ObjectScene
edited scene id f = record scene { objects = edit_first (has_id id) f scene.objects }

-- An edit of one object; the inverse is read off the object as it was.
unfoldable pub edit_object :
    ObjectScene → ObjectId → (Object → Object) → (Object → ObjectOp) → Applied
edit_object scene id f inverse = do o ← index_of scene id; ok (edited scene id f, inverse o)

abbrev pub is_there : ObjectScene → ObjectId → Bool
is_there scene id = any (has_id id) scene.objects

-- A geometry that may be stored: parsed, and not degenerate.
unfoldable pub checked_geometry : Geometry → Result ApplyError Geometry
checked_geometry geometry = do
  parsed ← map_err (λ e. bad_geometry (path e)) (ensure_parsed geometry)
  map_err apply_error_from_validation (validate_geometry parsed)
  ok parsed

unfoldable pub insert_object : ObjectScene → Object → Applied
insert_object scene object = do
  fail_if (is_there scene object.id) (duplicate_id object.id)
  parsed ← checked_geometry object.geometry
  ok (
    record scene { objects = scene.objects ++ record object { geometry = parsed } ∷ [] },
    Op.delete object.id,
  )

abbrev pub targets : ObjectId → Object → Bool
targets id peer = any (λ (a : Anchor). a.target == id) peer.anchors

-- A peer without its anchors at the deleted object.
abbrev pub prune : ObjectId → Object → Object
prune id peer =
    if targets id peer
    then record peer { anchors = filter (λ (a : Anchor). not (a.target == id)) peer.anchors }
    else peer

unfoldable pub peer_restores : ObjectId → List Object → List ObjectOp
peer_restores id [] = []
peer_restores id (peer ∷ peers) =
    let rest = peer_restores id peers in
    if targets id peer then Op.set_anchor peer.id peer.anchors ∷ rest else rest

-- A list of one operation stands for itself.
abbrev pub batch_unless_one : List ObjectOp → ObjectOp
batch_unless_one (op ∷ []) = op
batch_unless_one l = Op.batch (ops_of l)

unfoldable pub delete : ObjectScene → ObjectId → Applied
delete scene id = do
  removed ← index_of scene id
  let peers = remove_first (has_id id) scene.objects
  ok (
    record scene { objects = map (prune id) peers },
    batch_unless_one (Op.insert_object removed ∷ peer_restores id peers),
  )

unfoldable pub edit_geometry : ObjectScene → ObjectId → Geometry → Applied
edit_geometry scene id geometry = do
  parsed ← checked_geometry geometry
  edit_object scene id (λ o. record o { geometry = parsed }) (λ o. Op.edit_geometry id o.geometry)

unfoldable pub set_transform : ObjectScene → ObjectId → Transform3x3 → Applied
set_transform scene id transform =
    edit_object scene id (λ o. record o { transform = transform })
      (λ o. Op.set_transform id o.transform)

-- An optional field edit, and its inverse.
abbrev pub edit_field {ℓ} : {A : Type ℓ} → Option (FieldEdit A) → Option A → Option A
edit_field none current = current
edit_field (some edit) current = resolve edit

abbrev pub inverse_field {ℓ} : {A : Type ℓ} → Option (FieldEdit A) → Option A → Option (FieldEdit A)
inverse_field none current = none
inverse_field (some edit) current = some (from_option current)

unfoldable pub set_style :
    ObjectScene → ObjectId → Option (FieldEdit Fill) → Option (FieldEdit Stroke) → Applied
set_style scene id fill stroke =
    edit_object scene id
      (λ o. record o { fill = edit_field fill o.fill; stroke = edit_field stroke o.stroke })
      (λ o. Op.set_style id (inverse_field fill o.fill) (inverse_field stroke o.stroke))

unfoldable pub same_text : Option Text → Option Text → Bool
unfolding text_discrete
same_text s t = elim (text_discrete s t) [ yes e ↦ true | no n ↦ false ]

unfoldable pub set_text : ObjectScene → ObjectId → Option Text → Applied
set_text scene id text = do
  o ← index_of scene id
  if same_text o.text text
      then ok (scene, no_change)
      else ok (edited scene id (λ p. record p { text = text }), Op.set_text id o.text)

abbrev pub live_anchors : ObjectScene → List Anchor → List Anchor
live_anchors scene anchors = filter (λ (a : Anchor). is_there scene a.target) anchors

abbrev pub set_anchor_at : ObjectScene → ObjectId → List Anchor → Option Object → Applied
set_anchor_at scene id anchors none = ok (scene, no_change)
set_anchor_at scene id anchors (some o) = ok (
  edited scene id (λ p. record p { anchors = live_anchors scene anchors }),
  Op.set_anchor id o.anchors,
)

unfoldable pub set_anchor : ObjectScene → ObjectId → List Anchor → Applied
set_anchor scene id anchors = set_anchor_at scene id anchors (get_object scene id)

abbrev pub layout_ok : Option Layout → Result ApplyError (Unit {0})
layout_ok none = ok tt
layout_ok (some l) = map_err apply_error_from_validation (validate_layout l)

unfoldable pub set_layout : ObjectScene → ObjectId → Option Layout → Applied
set_layout scene id layout = do
  layout_ok layout
  edit_object scene id (λ o. record o { layout = layout }) (λ o. Op.set_layout id o.layout)

unfoldable pub set_clip : ObjectScene → ObjectId → Option Bool → Applied
set_clip scene id clip =
    edit_object scene id (λ o. record o { clip = clip }) (λ o. Op.set_clip id o.clip)

abbrev pub sizing_ok : Option Sizing → Result ApplyError (Unit {0})
sizing_ok none = ok tt
sizing_ok (some s) = map_err apply_error_from_validation (validate_sizing s)

unfoldable pub set_sizing : ObjectScene → ObjectId → Option Sizing → Applied
set_sizing scene id sizing = do
  sizing_ok sizing
  edit_object scene id (λ o. record o { sizing = sizing }) (λ o. Op.set_sizing id o.sizing)

abbrev pub edit_flag : Option Bool → Bool → Bool
edit_flag none current = current
edit_flag (some v) current = v

abbrev pub inverse_flag : Option Bool → Bool → Option Bool
inverse_flag none current = none
inverse_flag (some v) current = some current

unfoldable pub set_meta :
    ObjectScene → ObjectId → Option (FieldEdit Str) → (hidden locked : Option Bool) → Applied
set_meta scene id name hidden locked =
    edit_object scene id
      (λ o. record o {
        name = edit_field name o.name;
        hidden = edit_flag hidden o.hidden;
        locked = edit_flag locked o.locked;
      })
      (λ o.
        Op.set_meta id (inverse_field name o.name) (inverse_flag hidden o.hidden)
          (inverse_flag locked o.locked))

unfoldable pub add_comment : ObjectScene → ObjectId → Comment → Applied
add_comment scene id comment =
    edit_object scene id (λ o. record o { comments = o.comments ++ comment ∷ [] })
      (λ o. Op.set_comments id o.comments)

unfoldable pub set_comments : ObjectScene → ObjectId → List Comment → Applied
set_comments scene id comments =
    edit_object scene id (λ o. record o { comments = comments })
      (λ o. Op.set_comments id o.comments)

unfoldable pub set_tags : ObjectScene → ObjectId → List Str → Applied
set_tags scene id tags =
    edit_object scene id (λ o. record o { tags = tags }) (λ o. Op.set_tags id o.tags)

unfoldable pub reorder : ObjectScene → ObjectId → Str → Applied
reorder scene id order =
    edit_object scene id (λ o. record o { order = order }) (λ o. Op.reorder id o.order)

abbrev pub parent_in : ObjectScene → ObjectId → Option ObjectId
parent_in scene id = elim (get_object scene id) [ none ↦ none | some o ↦ o.parent ]

-- The walk up from `cursor`; the guard makes a round more than one for each object a cycle.
unfoldable pub walk_up : ℕ → ObjectScene → ObjectId → Option ObjectId → Bool
walk_up rounds scene id none = false
walk_up zero scene id (some cur) = true
walk_up (suc rounds) scene id (some cur) =
    let above = walk_up rounds scene id (parent_in scene cur) in if cur == id then true else above

-- With `n` objects the guard fails in round n + 2.
unfoldable pub would_cycle : ObjectScene → ObjectId → ObjectId → Bool
would_cycle scene id new_parent =
    if id == new_parent then true else walk_up (length scene.objects + 1) scene id (some new_parent)

abbrev pub cycle_under : ObjectScene → ObjectId → Option ObjectId → Bool
cycle_under scene id none = false
cycle_under scene id (some p) = would_cycle scene id p

unfoldable pub reparent : ObjectScene → ObjectId → Option ObjectId → Str → Applied
reparent scene id parent order = do
  fail_if (cycle_under scene id parent) (cycle id)
  edit_object scene id (λ o. record o { parent = parent; order = order })
      (λ o. Op.reparent id o.parent o.order)
