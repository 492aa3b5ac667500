-- ===== src/Kernel/Selection.antt =====
-- crates/scene-core/src/object/kernel/selection.rs: a selection that fits the scene.
pub mod Laws
mod Examples
use shape_ai.Common.{List, [], ◌∷◌, Bool, any, filter, map, ◌==◌, if◌then◌else◌}
use shape_ai.Common.Str.{Str, str_key}
use shape_ai.Kernel.Model.{ObjectId, ObjectScene, ObjectSelection, canvas, object, multi}

abbrev pub is_live : ObjectScene → ObjectId → Bool
is_live scene id = any (λ o. o.id == id) scene.objects

abbrev pub collapse : List ObjectId → ObjectSelection
collapse [] = canvas
collapse (id ∷ []) = object id
collapse (id ∷ jd ∷ ids) = multi (id ∷ jd ∷ ids)

unfoldable pub valid_selection : ObjectScene → ObjectSelection → ObjectSelection
valid_selection scene canvas = canvas
valid_selection scene (object id) = if is_live scene id then object id else canvas
valid_selection scene (multi ids) = collapse (filter (is_live scene) ids)

unfoldable pub select_all : ObjectScene → ObjectSelection
select_all scene = collapse (map (λ o. o.id) scene.objects)
