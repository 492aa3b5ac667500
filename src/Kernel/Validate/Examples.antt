-- ===== src/Kernel/Validate/Examples.antt =====
-- Validation of a scene of a triangle and its child.
use shape_ai.Common.{◌≡◌, refl, some, [], ◌∷◌, true}
use shape_ai.Common.Int.{pos}
use shape_ai.Common.Str.{bytes}
use shape_ai.Common.Map.{get, insert}
use shape_ai.Kernel.Model.{
  ObjectScene, empty_scene, new_object, Geometry, even_odd, SubPath, corner,
}
use shape_ai.Kernel.Validate.{
  validate_scene, object_errors, validate_object, validate_geometry, validate_subpaths,
  check_comments, validate_no_parent_cycle, check_cycles, walk, parents_onto,
  validate_anchor_targets, check_targets, check_anchors, total_nodes,
}
use shape_ai.Kernel.Validate.Laws.{IsSound, validate_scene-IsSound}

abbrev triangle : SubPath
triangle = record {
  closed = true;
  nodes = corner (pos 0) (pos 0) ∷ corner (pos 8) (pos 0) ∷ corner (pos 0) (pos 8) ∷ [];
}

abbrev outline : Geometry
outline = record { path_string = []; fill_rule = even_odd; subpaths = triangle ∷ [] }

abbrev family : ObjectScene
family = record empty_scene {
  objects =
      new_object (bytes "a") (bytes "a0") outline
      ∷ record (new_object (bytes "b") (bytes "a1") outline) { parent = some (bytes "a") }
      ∷ [];
}

family-valid : validate_scene family ≡ []
unfolding validate_scene object_errors validate_object validate_geometry validate_subpaths
    check_comments validate_no_parent_cycle check_cycles walk parents_onto validate_anchor_targets
    check_targets check_anchors total_nodes get insert
family-valid = refl

validate_scene-IsSound_example : IsSound family
validate_scene-IsSound_example = validate_scene-IsSound family family-valid
